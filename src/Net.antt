-- ===== src/Net.antt =====
-- What a party does with the `round_based` library: it sends messages, completes rounds, and stops
-- with a result. The library and the network are not part of the program: what a send comes to and
-- what a completed round delivers are arguments of the models of the protocols.
use govis.Prelude.{
  ◌≡◌, refl, ap, ℕ, Option, none, some, List, [], ◌∷◌, ◌++◌, Outcome, ok, err, panic,
}
use mathlib.Core.Path.{subst}

-- `reliably_broadcast(msg)` and `send_p2p(recipient, msg)`.
pub data Sent (M : Type 0) : Type 0 where
  broadcast : M → Sent M
  p2p : ℕ → M → Sent M

-- The messages sent, in order, and how the run ended.
abbrev pub Run : Type 0 → Type 0 → Type 0 → Type 0
Run M E A = List (Sent M) × Outcome E A

abbrev pub then_run : {M E A B : Type 0} → List (Sent M) → Outcome E A → (A → Run M E B) → Run M E B
then_run log (ok a) f = (log ++ (f a).0, (f a).1)
then_run log (err e) f = (log, err e)
then_run log panic f = (log, panic)

infixl 5 ◌>>=◌ ◌>>◌
abbrev pub ◌>>=◌ : {M E A B : Type 0} → Run M E A → (A → Run M E B) → Run M E B
m >>= f = then_run m.0 m.1 f

abbrev pub ◌>>◌ : {M E B : Type 0} → Run M E (Unit {0}) → Run M E B → Run M E B
m >> k = m >>= λ _. k

-- A step that sends nothing.
abbrev pub quiet : {M E A : Type 0} → Outcome E A → Run M E A
quiet o = ([], o)

-- `send(msg).await?`: the message goes out, and the send may come back with an error.
abbrev pub send : {M E S : Type 0} → (Sent M → Option S) → (S → E) → Sent M → Run M E (Unit {0})
send on_send wrap msg = (msg ∷ [], elim (on_send msg) [ none ↦ ok tt | some e ↦ err (wrap e) ])

-- `send_many.flush().await?`.
abbrev pub flush : {M E S : Type 0} → Option S → (S → E) → Run M E (Unit {0})
flush on_flush wrap = quiet (elim on_flush [ none ↦ ok tt | some e ↦ err (wrap e) ])

-- Whatever the run returns has the property.
pub record Returns {M E B : Type 0} (P : B → Type 0) (m : Run M E B) : Type 0 where
  pub result : (b : B) → m.1 ≡ ok b → P b

pub Returns-then_run :
    {M E A B : Type 0} {P : B → Type 0} (log : List (Sent M)) (o : Outcome E A) (f : A → Run M E B)
    → ((a : A) → o ≡ ok a → Returns P (f a))
    → Returns P (then_run log o f)
Returns-then_run log (ok a) f h = record { result = λ b e. (h a refl).result b e }
Returns-then_run log (err x) f h = record { result = λ b e. cc }
Returns-then_run log panic f h = record { result = λ b e. cc }

pub Returns-ok :
    {M E B : Type 0} {P : B → Type 0} (log : List (Sent M)) (b : B)
    → P b
    → Returns {M = M} {E = E} P (log, ok b)
Returns-ok {B} {P} log b p = record {
  result = λ b' e. subst P (ap (λ o. elim o [ ok x ↦ x | err _ ↦ b | panic ↦ b ]) e) p;
}
