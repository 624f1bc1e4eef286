-- ===== src/Wire/Reader/Always.antt =====
-- What every value that a reader returns has in common, by the reader's steps.
use iso.Base.{◌≡◌, subst, Result, ok, bind-eq-ok, ErrorKind}
use iso.Wire.Bytes.{Bytes}
use iso.Wire.Reader.{Reader, pure, fail, ◌>>=◌}

pub record Always {A : Type 0} (p : Reader A) (P : A → Type 0) : Type 0 where
  pub returns : (bs rest : Bytes) (a : A) → p bs ≡ ok (a, rest) → P a

abbrev done : {A : Type 0} → A → Bytes → Result ErrorKind (A × Bytes)
done a bs = ok (a, bs)

ok_value : {A : Type 0} (a b : A) (s t : Bytes) → done a s ≡ done b t → a ≡ b
ok_value a b s t h = cc

module _ {A : Type 0} where
  pub Always-pure : (P : A → Type 0) (a : A) → P a → Always (pure a) P
  unfolding pure
  Always-pure P a w = record { returns = λ bs rest b h. subst P (ok_value a b bs rest h) w }

  pub Always-fail : (P : A → Type 0) (e : ErrorKind) → Always (fail e) P
  unfolding fail
  Always-fail P e = record { returns = λ bs rest b h. absurd cc }

  pub Always-bind :
      {B : Type 0} (Q : B → Type 0) (P : A → Type 0) (p : Reader B) (f : B → Reader A)
      → Always p Q
      → ((b : B) → Q b → Always (f b) P)
      → Always (p >>= f) P
  unfolding ◌>>=◌
  Always-bind Q P p f w k = record {
    returns = λ bs rest a h.
        let s = bind-eq-ok (p bs) (λ (b, more). f b more) h in
        (k s.0.0 (w.returns bs s.0.1 s.0.0 s.1)).returns s.0.1 rest a s.2;
  }

  -- Nothing is asked of the first value.
  pub Always-next :
      {B : Type 0} (P : A → Type 0) (p : Reader B) (f : B → Reader A)
      → ((b : B) → Always (f b) P)
      → Always (p >>= f) P
  Always-next P p f k =
      Always-bind (λ b. Unit {0}) P p f (record { returns = λ bs rest b h. tt }) (λ b u. k b)
