-- ===== src/Cggmp21/Presign/Checked.antt =====
-- What a presignature is worth, whatever the network and the other signers do.
use govis.Prelude.{
  ℕ, some, List, [], ◌∷◌, ok, expect, ok_inj, expect_ok, map_err, map_err_ok, ◌≡◌, sym, All, true,
  Bool-cases, Option-cases, inl, inr,
}
use govis.Prelude.Bytes.{same_bytes}
use govis.Net.{Returns, Returns-then_run, Returns-ok}
use govis.Big.{Big}
use govis.Curve.{Curve}
use govis.Vss.{point_x_coord}
use govis.Cggmp21.{Presignature}
use govis.Cggmp21.Presign.{
  CommitMsg, RevealMsg, Error, round1_receive, round2_receive, Network, Draws, find_commit,
  presign_commitment, add_reveals, run_presign,
}

module _ (c : Curve) (big : Big) (sha256 : List ℕ → List ℕ) where
  open c use {Scalar, Point, one_s, mul, invert, padd, scale, generator, mul-invert}

  -- The revealed point is the one that its sender committed to.
  abbrev pub Matches : List (ℕ × CommitMsg) → ℕ × RevealMsg c → Type 0
  Matches round1_msgs (sender, reveal_msg) =
      (commit_msg : CommitMsg) × (find_commit sender round1_msgs ≡ some commit_msg)
      × (same_bytes (presign_commitment c big sha256 sender reveal_msg.r_point)
            commit_msg.commitment
          ≡ true)

  -- A point and all those revealed, added.
  abbrev pub padd_all : Point → List (ℕ × RevealMsg c) → Point
  padd_all r_point [] = r_point
  padd_all r_point ((_, reveal_msg) ∷ msgs) = padd_all (padd r_point reveal_msg.r_point) msgs

  add_reveals_ok :
      {R S : Type 0} (round1_msgs : List (ℕ × CommitMsg)) (r_point total : Point)
      (msgs : List (ℕ × RevealMsg c))
      → add_reveals c big sha256 {R = R} {S = S} round1_msgs r_point msgs ≡ ok total
      → All (Matches round1_msgs) msgs × (total ≡ padd_all r_point msgs)
  unfolding add_reveals
  add_reveals_ok {R} {S} round1_msgs r_point total [] h = (tt, sym (ok_inj h))
  add_reveals_ok round1_msgs r_point total ((sender, reveal_msg) ∷ msgs) h =
      elim (Option-cases (find_commit sender round1_msgs)) [
        | inl n ↦ absurd (cc (rw n at h))
        | inr (commit_msg, found) ↦
            elim (Bool-cases (
              same_bytes (presign_commitment c big sha256 sender reveal_msg.r_point)
                commit_msg.commitment)) [
                  | inl e ↦
                      let (all, sum) =
                        add_reveals_ok round1_msgs (padd r_point reveal_msg.r_point) total msgs
                          (rw (found, e) at h) in
                      (((commit_msg, found, e), all), sum)
                  | inr e ↦ absurd (cc (rw (found, e) at h))
                ]
      ]

  -- What `run_presign` promises of its result, for the messages that rounds 1 and 2 delivered.
  abbrev pub Sound : {R S : Type 0} → Network c R S → Draws c → Presignature c → Type 0
  Sound net draws presig =
      (mul presig.k presig.k_inv ≡ one_s)
      × (point_x_coord c presig.r_point ≡ some presig.r)
      × ((commits : List (ℕ × CommitMsg)) × (reveals : List (ℕ × RevealMsg c)) × (net.round1_msgs
            ≡ ok commits)
          × (net.round2_msgs ≡ ok reveals)
          × All (Matches commits) reveals
          × (presig.r_point ≡ padd_all (scale generator draws.k_scalar) reveals))

  -- The facts that the last steps of a run leave.
  Sound-intro :
      {R S : Type 0} (net : Network c R S) (draws : Draws c) (commits : List (ℕ × CommitMsg))
      (reveals : List (ℕ × RevealMsg c)) (total : Point) (k k_inv r : Scalar)
      → map_err {F = Error R S} round1_receive net.round1_msgs ≡ ok commits
      → map_err {F = Error R S} round2_receive net.round2_msgs ≡ ok reveals
      → add_reveals c big sha256 {R = R} {S = S} commits (scale generator draws.k_scalar) reveals
        ≡ ok total
      → expect {E = Error R S} (point_x_coord c total) ≡ ok r
      → expect {E = Error R S} (invert k) ≡ ok k_inv
      → Sound net draws (record { k = k; k_inv = k_inv; r = r; r_point = total })
  Sound-intro {R} {S} net draws commits reveals total k k_inv r h1 h2 h3 h4 h5 =
      let (all, sum) = add_reveals_ok {R = R} {S = S} commits _ total reveals h3 in
      (
        mul-invert k k_inv (expect_ok _ k_inv h5),
        expect_ok _ r h4,
        (
          commits,
          reveals,
          map_err_ok round1_receive net.round1_msgs commits h1,
          map_err_ok round2_receive net.round2_msgs reveals h2,
          all,
          sum,
        ),
      )

  pub run_presign_ok :
      {R S : Type 0} (net : Network c R S) (i : ℕ) (signers : List ℕ) (draws : Draws c)
      → Returns (Sound net draws) (run_presign c big sha256 net i signers draws)
  unfolding run_presign
  run_presign_ok net i signers draws = search (Returns-then_run, Returns-ok, Sound-intro) depth 40
