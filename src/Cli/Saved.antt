-- ===== src/Cli/Saved.antt =====
-- A key that one run saves is the key that the next run loads.
pub mod Lindell
pub mod Cggmp21
use govis.Prelude.{
  ℕ, Option, none, some, some_inj, List, [], Outcome, ok, err, panic, expect, expect_ok, ok_or,
  codes, Option-cases, inl, inr, ◌≡◌, refl, sym, ap, ◌∙◌,
}
use govis.Big.{Big}
use govis.Curve.{Curve}
use govis.Lindell.{LindellDkgOutput}
use govis.Lindell.KeyData.{LindellKeyData, to_key_data, from_key_data, from_key_data-to_key_data}
use govis.Cli.{get_arg}
use govis.Cli.Session.{
  Files, IsFileSystem, Session, Stop, Line, ◌>>=◌, done, read_file, write_file, written,
}
use govis.Cli.Session.Laws.{Keeps, then_session_ok}
use govis.Cli.World.{Libraries, IsBincode, World, KeyFileHeader}
use govis.Cli.RunLindell.{load_lindell, save_lindell, obtain_lindell, finish_lindell, run_lindell}
use govis.Cli.Main.{index_of}
use govis.Cli.Kept.{obtain_lindell-Keeps, finish_lindell-Keeps}
use mathlib.Core.Path.{subst}

-- A write that comes out well leaves the bytes in the file.
write_file-read :
    (c : Curve) (fs : Files) (lawful : IsFileSystem fs) (path bytes : List ℕ) (s : fs.State)
    → (write_file {c = c} fs path bytes s).2 ≡ ok tt
    → fs.read (write_file {c = c} fs path bytes s).1 path ≡ some bytes
unfolding write_file
write_file-read c fs lawful path bytes s = go (fs.write s path bytes) refl
  where
    go :
        (o : Option fs.State)
        → fs.write s path bytes ≡ o
        → (written {c = c} fs s o).2 ≡ ok tt
        → fs.read (written {c = c} fs s o).1 path ≡ some bytes
    go none e h = absurd (cc h)
    go (some t) e h = lawful.read-write s t path bytes e

-- What serialising and writing leaves.
pub save-read :
    (c : Curve) (fs : Files) (lawful : IsFileSystem fs) (o : Option (List ℕ)) (path : List ℕ)
    (s : fs.State)
    → ((done {c = c} (expect o) >>= write_file fs path) s).2 ≡ ok tt
    → (bytes : List ℕ) × (o ≡ some bytes)
      × (fs.read ((done {c = c} (expect o) >>= write_file fs path) s).1 path ≡ some bytes)
unfolding done
save-read c fs lawful o path s h =
    let (bytes, e, w, same) =
      then_session_ok (done {c = c} (expect o)) (write_file fs path) s tt h in
    (
      bytes,
      expect_ok o bytes e,
      ap (λ t. fs.read t path) same ∙ write_file-read c fs lawful path bytes s w,
    )

-- The index of the next run is that of the key file's header.
pub index_of-read :
    (c : Curve) (big : Big) (libs : Libraries) (fs : Files) (args : List (List ℕ))
    (path bytes : List ℕ) (header : KeyFileHeader) (t : fs.State)
    → get_arg args (codes "--load-key") ≡ some path
    → fs.read t path ≡ some bytes
    → libs.deserialize_header bytes ≡ some header
    → index_of c big libs fs args t ≡ ([], t, ok header.party_index)
unfolding index_of read_file done ◌>>=◌
index_of-read c big libs fs args path bytes header t e r h = rw (index_of, e, r, h) refl
