-- ===== src/Codec/RoundTrip/Paths.antt =====
-- Round trip of a path: `Writer::path` and `Reader::path` of codec.rs.
use quic_sync.Base.{
  ℕ, ◌+◌, ◌-◌, ◌≤◌, ◌<◌, List, [], ◌∷◌, length, ltb, ◌==◌, if◌then◌else◌, ok, err, arith, ◌≡◌,
  false, Bool-cases, inl, inr, ltb→ge, Result-cases,
}
use quic_sync.Base.Words.{Bytes, IsU64}
use quic_sync.Types.{RelativePath, IsPath, new_path}
use quic_sync.Codec.{CodecLimits, limit_exceeded}
use quic_sync.Codec.Writer
use quic_sync.Codec.Writer.{◌<+>◌, total_bytes, all_bytes}
use quic_sync.Codec.Reader
use quic_sync.Codec.Reader.{Reader, ◌>>=◌, pure}
use quic_sync.Codec.Codes.{Codes, Codes-bind, Codes-map, Codes-pure, Codes-err, Codes-assoc}
use quic_sync.Codec.RoundTrip.Fields.{Codes-bounded_length, Codes-take}

-- The sum of the lengths, without the check.
abbrev pub sum_lengths : List Bytes → ℕ
sum_lengths [] = 0
sum_lengths (c ∷ cs) = length c + sum_lengths cs

pub total_bytes-eq-ok :
    (total : ℕ) (cs : List Bytes) (n : ℕ) → total_bytes total cs ≡ ok n → n ≡ total + sum_lengths cs
unfolding total_bytes
total_bytes-eq-ok total [] n h = ground arith
total_bytes-eq-ok total (c ∷ cs) n h = ground (arith, total_bytes-eq-ok (total + length c) cs n)

gt→==0 : (n : ℕ) → 0 < n → (n == 0) ≡ false
gt→==0 n h = ground arith

new_path_nonempty : (cs : List Bytes) (p : RelativePath) → new_path cs ≡ ok p → 0 < length cs
unfolding new_path
new_path_nonempty [] p h = absurd (ground arith)
new_path_nonempty (c ∷ cs) p h = omega arith

module _ {limits : CodecLimits} where
  -- The loop reads the components one by one, the budget shrinking as the writer's total grows.
  Codes-components :
      (cs : List Bytes) (total : ℕ)
      → IsU64 limits.max_path_bytes
      → total + sum_lengths cs ≤ limits.max_path_bytes
      → Codes limits (all_bytes cs) (Reader.components limits (length cs) total) cs
  unfolding all_bytes Reader.components Writer.bytes
  Codes-components [] total sized h = Codes-pure []
  Codes-components (c ∷ cs) total sized h =
      Codes-assoc (Writer.length (length c)) (Writer.raw c) (all_bytes cs) _ _ (
        Codes-bind (Writer.length (length c)) _
          (Reader.bounded_length (limits.max_path_bytes - total) (limit_exceeded "path bytes")) _
          (length c) (c ∷ cs)
          (Codes-bounded_length (length c) (limits.max_path_bytes - total) _ (omega arith)
            (omega arith))
          (Codes-bind (Writer.raw c) (all_bytes cs) (Reader.take (length c)) _ c (c ∷ cs)
            (Codes-take c)
            (Codes-map (all_bytes cs) _ (λ (l : List Bytes). c ∷ l) cs
              (Codes-components cs (total + length c) sized (omega arith)))))

  -- A path from `RelativePath::new` is read back.
  Codes-checked :
      (p : RelativePath)
      → IsU64 limits.max_path_bytes
      → IsU64 limits.max_components
      → IsPath p
      → length p.components ≤ limits.max_components
      → sum_lengths p.components ≤ limits.max_path_bytes
      → Codes limits
          (Writer.length (length p.components) <+> all_bytes p.components)
          (Reader.path limits)
          p
  unfolding Reader.path
  Codes-checked p sized counted valid few short =
      Codes-bind (Writer.length (length p.components)) (all_bytes p.components)
        (Reader.bounded_length limits.max_components (limit_exceeded "path components")) _
        (length p.components) p
        (Codes-bounded_length (length p.components) limits.max_components _ (omega arith) few)
        (record {
          reads = λ bs rest w fits. rw (
            gt→==0 _ (new_path_nonempty p.components p valid),
            (Codes-components p.components 0 sized (omega arith)).reads bs rest w fits,
            ◌>>=◌,
            valid,
          );
        })

  Codes-within :
      (p : RelativePath) (n : ℕ)
      → IsU64 limits.max_path_bytes
      → IsU64 limits.max_components
      → IsPath p
      → length p.components ≤ limits.max_components
      → n ≡ sum_lengths p.components
      → Codes limits
          (if ltb limits.max_path_bytes n
            then err (limit_exceeded "path bytes")
            else Writer.length (length p.components) <+> all_bytes p.components)
          (Reader.path limits)
          p
  Codes-within p n sized counted valid few total = elim (Bool-cases (ltb limits.max_path_bytes n)) [
    | inl long ↦ rw long (Codes-err _ _ p)
    | inr short ↦ rw short (
        Codes-checked p sized counted valid few
          (omega (arith, ltb→ge limits.max_path_bytes n short)))
  ]

  pub Codes-path :
      (p : RelativePath)
      → IsU64 limits.max_path_bytes
      → IsU64 limits.max_components
      → IsPath p
      → Codes limits (Writer.path limits p) (Reader.path limits) p
  unfolding Writer.path
  Codes-path p sized counted valid =
      elim (Bool-cases (ltb limits.max_components (length p.components))) [
        | inl many ↦ rw many (Codes-err _ _ p)
        | inr few ↦ elim (Result-cases (total_bytes 0 p.components)) [
          | inl (n, e) ↦
              rw (few, e)
                (Codes-within p n sized counted valid
                  (ltb→ge limits.max_components (length p.components) few)
                  (omega (arith, total_bytes-eq-ok 0 p.components n e)))
          | inr (e, h) ↦ rw (few, h) (Codes-err _ _ p)
        ]
      ]
