-- ===== src/Tests/Presigning.antt =====
-- Two signers make a nonce.
use govis.Prelude.{
  ◌≡◌, refl, ap, ℕ, slice?, ◌==◌, if◌then◌else◌, none, some, [], ◌∷◌, ok, true, arith,
}
use govis.Prelude.Int.{pos}
use govis.Net.{broadcast, Returns}
use govis.Big.{toy_big}
use govis.Curve.Toy.{toy, n0, n1, n2, n3, n4, add5, mul5, of_nat, bytes5}
use govis.Vss.{point_x_coord, scalar_to_bigint}
use govis.Vss.Lagrange.Interpolation.{sum_over}
use govis.Paillier.{PaillierKeypair, encrypt_with_rho}
use govis.Zk.{g_pow}
use govis.Zk.Range.{prove_range, range_challenge}
use govis.Cggmp21.{Presignature}
use govis.Cggmp21.OnlineSign.{position, run_online_sign}
use govis.Cggmp21.OnlineSign as Online
use govis.Cggmp21.OnlineSign.Delivered.{inbox}
use govis.Cggmp21.OnlineSign.Honest.{share_of}
use govis.Cggmp21.Session.{run_online_sign-run_presign}
use govis.Vss.Polynomial.{eval}
use govis.Big.Draws.{drawn_below}
use govis.Cggmp21.Presign.{
  EncryptedKMsg, Network, Draws, round0, round1, round2, encrypt_k, secp256k1_order, run_presign,
}
use govis.Cggmp21.Presign.Checked.{Sound, run_presign_ok}
use govis.Cggmp21.Presign.Peers.{from_others, AllAt, rebuilt, pk_msg}
use govis.Cggmp21.Presign.Rounds.{commit_msg, reveal_msg, outbox}
use govis.Cggmp21.Presign.Nonces.{DrawnFor, ReadsModuloOrder}
use govis.Cggmp21.Presign.Honest.{Pair, run_presign-honest}
use govis.Tests.Setup.{
  constant_hash, public_77, private_77, private_77-IsKeypair, two_signers, two_signers-Distinct,
  weights, weights_lem, line,
}
use native.Mathlib.Nat.{mod-eq_of_lt}

abbrev keys : PaillierKeypair
keys = record { pk = public_77; sk = private_77 }

-- The nonces are 1 and 2.
abbrev pub drawn : ℕ → Draws toy
drawn j = record {
  kp = keys;
  k_scalar = if j == 0 then n1 else n2;
  rho = λ p. pos 1;
  alpha = λ p. pos 2;
  gamma = λ p. pos 3;
}

abbrev sent_k : ℕ → ℕ → EncryptedKMsg
sent_k p j = elim (encrypt_k toy toy_big constant_hash (drawn j) (rebuilt public_77) 0) [
  | none ↦ record { c_k_share = none; range_proof = none }
  | some msg ↦ msg
]

abbrev pub presign_network : Network toy ℕ ℕ
presign_network = record {
  on_send = λ m. none;
  on_flush = none;
  round0_msgs = ok (from_others (pk_msg (λ j. public_77)) 0 0 two_signers);
  round1_msgs = ok (from_others (commit_msg toy toy_big constant_hash drawn) 0 0 two_signers);
  round2_msgs = ok (from_others (reveal_msg toy toy_big constant_hash drawn) 0 0 two_signers);
  round3_msgs = ok (from_others sent_k 0 0 two_signers);
}

in_range : (j p : ℕ) → DrawnFor toy toy_big constant_hash (drawn j) keys p
in_range j p = record {
  rho_n = 1;
  alpha_n = 2;
  gamma_n = 3;
  rho_eq = refl;
  alpha_eq = refl;
  gamma_eq = refl;
  unit = refl;
}

pairs : AllAt (Pair toy toy_big constant_hash drawn 0 0 sent_k) 0 two_signers
unfolding encrypt_k drawn_below encrypt_with_rho prove_range range_challenge g_pow scalar_to_bigint
pairs = (
  record {
    key = private_77-IsKeypair;
    drawn = in_range 0 0;
    answered = in_range 0 0;
    fits = omega arith;
    sent = refl;
  },
  (
    record {
      key = private_77-IsKeypair;
      drawn = in_range 0 1;
      answered = in_range 1 0;
      fits = omega arith;
      sent = refl;
    },
    tt,
  ),
)

small_reads : ReadsModuloOrder toy toy_big constant_hash 4
small_reads a h = ap of_nat (mod-eq_of_lt {n = a} {m = secp256k1_order} (omega arith))

run_presign-honest_example :
    run_presign toy toy_big constant_hash presign_network 0 two_signers (drawn 0) ≡ (
      broadcast (round0 (record { n = 77; g = 78 }))
          ∷ broadcast (round1 (commit_msg toy toy_big constant_hash drawn 0 0))
          ∷ broadcast (round2 (record { r_point = n1 }))
          ∷ outbox toy toy_big constant_hash drawn 0 0 0 two_signers,
      ok (record { k = n3; k_inv = n2; r = n2; r_point = n3 }),
    )
unfolding sum_over
run_presign-honest_example =
    run_presign-honest toy toy_big constant_hash drawn presign_network 0 0 two_signers sent_k n2 n2
      (omega arith) (unfold position in refl) private_77-IsKeypair pairs small_reads
      (unfold sum_over in refl) (unfold point_x_coord slice? sum_over in refl) (λ m. refl) refl refl
      refl refl refl

-- What the first signer has after it.
pub presigned :
    (run_presign toy toy_big constant_hash presign_network 0 two_signers (drawn 0)).1
    ≡ ok (record { k = n3; k_inv = n2; r = n2; r_point = n3 })
unfolding sum_over
presigned =
    ap (λ run. run.1)
      (run_presign-honest toy toy_big constant_hash drawn presign_network 0 0 two_signers sent_k n2
        n2 (omega arith) (unfold position in refl) private_77-IsKeypair pairs small_reads
        (unfold sum_over in refl) (unfold point_x_coord slice? sum_over in refl) (λ m. refl) refl
        refl refl refl refl)

run_presign_ok_example :
    Returns
      (Sound toy toy_big constant_hash presign_network (drawn 0))
      (run_presign toy toy_big constant_hash presign_network 0 two_signers (drawn 0))
run_presign_ok_example =
    run_presign_ok toy toy_big constant_hash presign_network 0 two_signers (drawn 0)

abbrev pub sign_network : Online.Network ℕ ℕ
sign_network = record {
  on_send = λ m. none;
  round1_msgs = ok (inbox toy (share_of toy n2 weights n1 n2 line) 0 0 two_signers);
}

run_online_sign-run_presign_example :
    (presig : Presignature toy) × ((run_presign toy toy_big constant_hash presign_network 0
        two_signers
        (drawn 0)).1
      ≡ ok presig)
    × ((run_online_sign toy sign_network 0 two_signers
          (eval toy line n1)
          (eval toy line n0)
          (1 ∷ [])
          presig).1
        ≡ ok (record { r_bytes = bytes5 n2; s_bytes = bytes5 n4; rec_id = 1 }))
    × (mul5 presig.k n4 ≡ add5 n1 (mul5 presig.r (eval toy line n0)))
unfolding eval
run_online_sign-run_presign_example =
    run_online_sign-run_presign toy toy_big constant_hash drawn presign_network sign_network 0 0
      two_signers sent_k n2 n2 line weights (1 ∷ []) true (omega arith) (unfold position in refl)
      private_77-IsKeypair pairs small_reads (unfold sum_over in refl)
      (unfold point_x_coord slice? sum_over in refl) (λ m. refl) refl refl refl refl refl
      two_signers-Distinct (omega arith) weights_lem (unfold sum_over in refl) (λ e. cc) (λ m. refl)
      refl
