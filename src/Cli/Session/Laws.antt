-- ===== src/Cli/Session/Laws.antt =====
-- What a session prints, and what it leaves of the files, step by step.
use govis.Prelude.{
  ℕ, Option, none, some, List, Outcome, ok, err, panic, ◌≡◌, refl, ◌∙◌, All, All-append,
}
use govis.Curve.{Curve}
use govis.Cli.Session.{
  Line, Stop, Session, then_session, done, print, read_file, write_file, written, Files, ◌>>=◌,
}

module _ {c : Curve} {S : Type 0} where
  -- Every line printed has the property, from whatever files the session starts.
  pub record Prints {A : Type 0} (P : Line c → Type 0) (m : Session c S A) : Type 0 where
    pub printed : (s : S) → All P (m s).0

  pub Prints-then :
      {A B : Type 0} {P : Line c → Type 0} (m : Session c S A) (f : A → Session c S B)
      → Prints P m
      → ((s : S) (a : A) → (m s).2 ≡ ok a → Prints P (f a))
      → Prints P (m >>= f)
  unfolding ◌>>=◌
  Prints-then {A} {P} m f h k = record { printed = λ s. go s (m s).2 refl }
    where
      go : (s : S) (o : Outcome Stop A) → (m s).2 ≡ o → All P (then_session (m s).0 (m s).1 o f).0
      go s (ok a) e = All-append P (m s).0 _ (h.printed s) ((k s a e).printed (m s).1)
      go s (err x) e = h.printed s
      go s panic e = h.printed s

  pub Prints-print : {P : Line c → Type 0} (line : Line c) → P line → Prints P (print {S = S} line)
  unfolding print
  Prints-print line p = record { printed = λ s. (p, tt) }

  pub Prints-done :
      {A : Type 0} {P : Line c → Type 0} (o : Outcome Stop A) → Prints {A = A} P (done {S = S} o)
  unfolding done
  Prints-done o = record { printed = λ s. tt }

  pub Prints-done_then :
      {A B : Type 0} {P : Line c → Type 0} (o : Outcome Stop A) (f : A → Session c S B)
      → ((a : A) → o ≡ ok a → Prints P (f a))
      → Prints P (done o >>= f)
  unfolding done
  Prints-done_then o f k = Prints-then (done o) f (Prints-done o) (λ s a e. k a e)

  -- The files stay as they are.
  pub record Keeps {A : Type 0} (m : Session c S A) : Type 0 where
    pub kept : (s : S) → (m s).1 ≡ s

  pub Keeps-then :
      {A B : Type 0} (m : Session c S A) (f : A → Session c S B)
      → Keeps m
      → ((a : A) → Keeps (f a))
      → Keeps (m >>= f)
  unfolding ◌>>=◌
  Keeps-then {A} m f h k = record { kept = λ s. go s (m s).2 }
    where
      go : (s : S) (o : Outcome Stop A) → (then_session (m s).0 (m s).1 o f).1 ≡ s
      go s (ok a) = (k a).kept (m s).1 ∙ h.kept s
      go s (err x) = h.kept s
      go s panic = h.kept s

  pub Keeps-print : (line : Line c) → Keeps (print {S = S} line)
  unfolding print
  Keeps-print line = record { kept = λ s. refl }

  pub Keeps-done : {A : Type 0} (o : Outcome Stop A) → Keeps {A = A} (done {S = S} o)
  unfolding done
  Keeps-done o = record { kept = λ s. refl }

  -- A session that ends well has come through its first part.
  pub then_session_ok :
      {A B : Type 0} (m : Session c S A) (f : A → Session c S B) (s : S) (b : B)
      → ((m >>= f) s).2 ≡ ok b
      → (a : A) × ((m s).2 ≡ ok a) × ((f a (m s).1).2 ≡ ok b) × (((m >>= f) s).1 ≡ (f a (m s).1).1)
  unfolding ◌>>=◌
  then_session_ok {A} {B} m f s b = go (m s).2
    where
      go :
          (o : Outcome Stop A)
          → (then_session (m s).0 (m s).1 o f).2 ≡ ok b
          → (a : A) × (o ≡ ok a)
            × ((f a (m s).1).2 ≡ ok b)
            × ((then_session (m s).0 (m s).1 o f).1 ≡ (f a (m s).1).1)
      go (ok a) h = (a, refl, h, refl)
      go (err e) h = absurd (cc h)
      go panic h = absurd (cc h)

module _ {c : Curve} (fs : Files) where
  pub Prints-read_file :
      {P : Line c → Type 0} (stop : Stop) (path : List ℕ)
      → Prints P (read_file {c = c} fs stop path)
  unfolding read_file
  Prints-read_file stop path = record { printed = λ s. tt }

  pub Prints-write_file :
      {P : Line c → Type 0} (path bytes : List ℕ) → Prints P (write_file {c = c} fs path bytes)
  unfolding write_file
  Prints-write_file {P} path bytes = record { printed = λ s. go s (fs.write s path bytes) }
    where
      go : (s : fs.State) (o : Option fs.State) → All P (written {c = c} fs s o).0
      go s none = tt
      go s (some t) = tt

  pub Keeps-read_file : (stop : Stop) (path : List ℕ) → Keeps (read_file {c = c} fs stop path)
  unfolding read_file
  Keeps-read_file stop path = record { kept = λ s. refl }
