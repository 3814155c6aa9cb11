-- ===== src/Codec/Codes.antt =====
-- A reader takes back what a writer wrote: the relation between the two, and its rules.
use quic_sync.Base.{
  ◌+◌, ◌≤◌, [], ◌++◌, append_assoc, length, length-append, ok, err, arith, ◌≡◌, refl, ap,
}
use quic_sync.Base.Words.{Bytes}
use quic_sync.Codec.{CodecLimits, CodecError, Coded}
use quic_sync.Codec.Writer.{◌<+>◌}
use quic_sync.Codec.Reader.{Reader, ◌>>=◌, pure}

-- Where `w` writes bytes that fit a frame, `r` reads `a` from them and stops right behind them.
pub record Codes {A : Type 0} (limits : CodecLimits) (w : Coded Bytes) (r : Reader A) (a : A)
    : Type 0 where
  pub reads :
      (bs rest : Bytes)
      → w ≡ ok bs
      → length bs ≤ limits.max_frame_bytes
      → r (bs ++ rest) ≡ ok (a, rest)

pub ok-injective : {x y : Bytes} → ◌≡◌ {A = Coded Bytes} (ok x) (ok y) → x ≡ y
ok-injective h = cc

pub <+>-eq-ok :
    (v w : Coded Bytes) (bs : Bytes)
    → (v <+> w) ≡ ok bs
    → (xs : Bytes) × (ys : Bytes) × (v ≡ ok xs) × (w ≡ ok ys) × (xs ++ ys ≡ bs)
unfolding ◌<+>◌
<+>-eq-ok (ok xs) (ok ys) bs h = (xs, ys, refl, refl, ok-injective h)
<+>-eq-ok (ok xs) (err e) bs h = cc
<+>-eq-ok (err e) w bs h = cc

<+>_assoc : (u v w : Coded Bytes) → ((u <+> v) <+> w) ≡ (u <+> (v <+> w))
unfolding ◌<+>◌
<+>_assoc (ok xs) (ok ys) (ok zs) = ap (λ (l : Bytes). ok l) (append_assoc xs ys zs)
<+>_assoc (ok xs) (ok ys) (err e) = refl
<+>_assoc (ok xs) (err e) w = refl
<+>_assoc (err e) v w = refl

pub Codes-assoc :
    {limits : CodecLimits} {A : Type 0} (u v w : Coded Bytes) (r : Reader A) (a : A)
    → Codes limits (u <+> (v <+> w)) r a
    → Codes limits ((u <+> v) <+> w) r a
Codes-assoc u v w r a c = rw (<+>_assoc u v w) c

module _ {limits : CodecLimits} {A B : Type 0} where
  pub Codes-bind :
      (v w : Coded Bytes) (r : Reader A) (f : A → Reader B) (a : A) (b : B)
      → Codes limits v r a
      → Codes limits w (f a) b
      → Codes limits (v <+> w) (r >>= f) b
  Codes-bind v w r f a b first second = record {
    reads = λ bs rest written fits.
        let (xs, ys, p, q, e) = <+>-eq-ok v w bs written in
        let size : length xs + length ys ≤ limits.max_frame_bytes =
          rw (← length-append xs ys, e) fits in
        rw (← e, append_assoc, first.reads xs (ys ++ rest) p (omega arith), ◌>>=◌)
          (second.reads ys rest q (omega arith));
  }

  pub Codes-map :
      (w : Coded Bytes) (r : Reader A) (g : A → B) (a : A)
      → Codes limits w r a
      → Codes limits w (r >>= λ x. pure (g x)) (g a)
  Codes-map w r g a c = record {
    reads = λ bs rest written fits. rw (c.reads bs rest written fits, ◌>>=◌);
  }

pub Codes-pure : {limits : CodecLimits} {A : Type 0} (a : A) → Codes limits (ok []) (pure a) a
Codes-pure a = record { reads = λ bs rest h fits. rw (← ok-injective h) }

-- Fixed bytes.
pub Codes-bytes :
    {limits : CodecLimits} {A : Type 0} (bs : Bytes) (r : Reader A) (a : A)
    → ((rest : Bytes) → r (bs ++ rest) ≡ ok (a, rest))
    → Codes limits (ok bs) r a
Codes-bytes bs r a reads = record { reads = λ cs rest h fits. rw (← ok-injective h) (reads rest) }

-- A writer that fails has no bytes to read back.
pub Codes-err :
    {limits : CodecLimits} {A : Type 0} (e : CodecError) (r : Reader A) (a : A)
    → Codes limits (err e) r a
Codes-err e r a = record { reads = λ bs rest h fits. cc }
