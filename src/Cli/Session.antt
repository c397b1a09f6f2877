-- ===== src/Cli/Session.antt =====
-- What one run of the program does outside of its memory: it prints lines, reads and writes files, and
-- stops with an exit code or a panic.
pub mod Laws
use govis.Prelude.{
  ℕ, Option, none, some, List, [], ◌∷◌, ◌++◌, Outcome, ok, err, panic, Bool, ◌≡◌, map_err, ok_or,
}
use govis.Curve.{Curve}
use govis.Cli.{Exit, DigestExit}

-- The file system: `std::fs::read` and `std::fs::write`, which fail with `none`.
pub record Files : Type 1 where
  pub State : Type 0
  pub read : State → List ℕ → Option (List ℕ)
  pub write : State → List ℕ → List ℕ → Option State

-- A file that was written has its bytes.
pub record IsFileSystem (fs : Files) : Type 0 where
  pub read-write :
      (s t : fs.State) (path bytes : List ℕ)
      → fs.write s path bytes ≡ some t
      → fs.read t path ≡ some bytes

-- The lines of the standard output, by the values that they show.
pub data Line (c : Curve) : Type 0 where
  keygen_header : ℕ → Line c
  public_key_line : c.Point → Line c
  secret_share_line : List ℕ → Line c
  signature_header : ℕ → Line c
  r_line : List ℕ → Line c
  s_line : List ℕ → Line c
  rec_id_line : ℕ → Line c
  verify_line : Bool → Line c
  ethereum_line : List ℕ → Line c
  ethereum_eip155_line : List ℕ → Line c
  bitcoin_line : List ℕ → Line c
  refresh_header : ℕ → Line c
  new_share_line : List ℕ → Line c
  master_key_line : List ℕ → Line c

-- The exits with code 1, by what they report on the standard error.
pub data Stop : Type 0 where
  usage unreadable_key_file not_a_key_file : Stop
  not_a_lindell_key not_a_cggmp21_key : Stop
  connection_failed reconnect_failed sign_reconnect_failed : Stop
  dkg_failed refresh_failed sign_failed keygen_failed presign_failed online_sign_failed : Stop
  unwritable_key_file two_signers_required : Stop
  bad_arguments : Exit → Stop
  bad_digest : DigestExit → Stop

-- The lines printed, the files after it, and how it ended.
abbrev pub Session : Curve → Type 0 → Type 0 → Type 0
Session c S A = S → List (Line c) × S × Outcome Stop A

module _ {c : Curve} {S : Type 0} where
  abbrev pub then_session :
      {A B : Type 0}
      → List (Line c)
      → S
      → Outcome Stop A
      → (A → Session c S B)
      → List (Line c) × S × Outcome Stop B
  then_session log s (ok a) f = (log ++ (f a s).0, (f a s).1, (f a s).2)
  then_session log s (err e) f = (log, s, err e)
  then_session log s panic f = (log, s, panic)

  infixl 5 ◌>>=◌ ◌>>◌
  unfoldable pub ◌>>=◌ : {A B : Type 0} → Session c S A → (A → Session c S B) → Session c S B
  m >>= f = λ s. then_session (m s).0 (m s).1 (m s).2 f

  abbrev pub ◌>>◌ : {B : Type 0} → Session c S (Unit {0}) → Session c S B → Session c S B
  m >> k = m >>= λ _. k

  unfoldable pub done : {A : Type 0} → Outcome Stop A → Session c S A
  done o = λ s. ([], s, o)

  -- `unwrap_or_else(|e| { …; std::process::exit(1) })`.
  abbrev pub or_exit : {E A : Type 0} → Stop → Outcome E A → Session c S A
  or_exit stop o = done (map_err (λ _. stop) o)

  unfoldable pub print : Line c → Session c S (Unit {0})
  print line = λ s. (line ∷ [], s, ok tt)

module _ {c : Curve} (fs : Files) where
  unfoldable pub read_file : Stop → List ℕ → Session c fs.State (List ℕ)
  read_file stop path = λ s. ([], s, ok_or stop (fs.read s path))

  abbrev pub written :
      fs.State → Option fs.State → List (Line c) × fs.State × Outcome Stop (Unit {0})
  written s none = ([], s, err unwritable_key_file)
  written s (some t) = ([], t, ok tt)

  unfoldable pub write_file : List ℕ → List ℕ → Session c fs.State (Unit {0})
  write_file path bytes = λ s. written s (fs.write s path bytes)
