-- ===== src/Tests/Ciphertexts.antt =====
-- The theorems on Paillier ciphertexts and their proofs, for the key 77.
use govis.Prelude.{◌*◌, ◌%◌, ◌^◌, ◌≡◌, ◌≢◌, ◌↔◌, refl, [], ◌∷◌, some, ok, panic, arith, true}
use govis.Prelude.Int.{ℤ, pos}
use govis.Big.{toy_big}
use govis.Curve.Toy.{toy, n0, n2, n3, n4}
use govis.Paillier.{encrypt_with_rho, add, scalar_mul, decrypt}
use govis.Paillier.Plaintext.{decrypt-chain}
use govis.Zk.Range.{RangeProof, prove_range, verify_range}
use govis.Zk.Range.Complete.{prove_range-accepted}
use govis.Zk.Range.Forged.{zero_proof, verify_range-forged}
use govis.Zk.Mul.{MulProof, prove_mul, verify_mul}
use govis.Zk.Mul.Complete.{prove_mul-accepted}
use govis.Zk.Log.{LogProof, prove_log, verify_log}
use govis.Zk.Log.Complete.{prove_log-accepted}
use govis.Zk.Consistency.{ConsistencyProof, prove_consistency, verify_consistency}
use govis.Zk.Consistency.Complete.{prove_consistency-accepted}
use govis.Zk.Blum.{BlumProof, prove_blum, verify_blum}
use govis.Zk.Blum.Complete.{prove_blum-accepted}
use govis.Zk.Blum.Verified.{AllValid, verify_blum_iff}
use govis.Mta.{MtaRound1Msg, mta_round1, mta_round2, mta_finalize, dummy_proof}
use govis.Mta.Runs.{mta_round2-panics, mta_finalize-Opens}
use govis.Tests.Setup.{
  constant_hash, constant_hash_lt, public_77, private_77, private_77-IsKeypair,
  public_77-IsPublicKey,
}

decrypt-chain_example :
    (c1 c2 sum product : ℤ) × (encrypt_with_rho toy_big public_77 (pos 6) (pos 2) ≡ some c1)
    × (encrypt_with_rho toy_big public_77 (pos 7) (pos 3) ≡ some c2)
    × (add toy_big public_77 c1 c2 ≡ some sum)
    × (scalar_mul toy_big public_77 sum (pos 4) ≡ some product)
    × (decrypt toy_big private_77 public_77 sum ≡ some (pos 13))
    × (decrypt toy_big private_77 public_77 product ≡ some (pos 52))
decrypt-chain_example =
    decrypt-chain toy_big public_77 private_77 private_77-IsKeypair 6 7 4 2 3 refl refl

prove_range-accepted_example :
    (c : ℤ) × (proof : RangeProof) × (encrypt_with_rho toy_big public_77 (pos 5) (pos 2) ≡ some c)
    × (prove_range toy_big constant_hash public_77 c (pos 5) (pos 2) 8 [] (pos 9) (pos 3)
        ≡ some proof)
    × (verify_range toy_big constant_hash public_77 c 8 [] proof ≡ some true)
prove_range-accepted_example =
    prove_range-accepted toy_big constant_hash public_77 5 2 8 9 3 [] public_77-IsPublicKey
      constant_hash_lt (omega arith) (omega arith)

verify_range-forged_example :
    verify_range toy_big constant_hash public_77 (pos 1000) 8 [] (zero_proof 12) ≡ some true
verify_range-forged_example =
    verify_range-forged toy_big constant_hash public_77 1000 8 12 [] (omega arith) (omega arith)
      (omega arith)

prove_mul-accepted_example :
    (proof : MulProof) × (prove_mul toy_big constant_hash public_77
        (pos 40)
        (pos (40 ^ 5 % 5929 * (2 ^ 77 % 5929) % 5929))
        (pos 5)
        (pos 2)
        []
        (pos 9)
        (pos 3)
      ≡ some proof)
    × (verify_mul toy_big constant_hash public_77
          (pos 40)
          (pos (40 ^ 5 % 5929 * (2 ^ 77 % 5929) % 5929))
          8
          []
          proof
        ≡ some true)
prove_mul-accepted_example =
    prove_mul-accepted toy_big constant_hash public_77 40 5 2 8 9 3 [] public_77-IsPublicKey
      constant_hash_lt (omega arith) (omega arith)

prove_log-accepted_example :
    (c' : ℤ) × (proof : LogProof toy) × (encrypt_with_rho toy_big public_77 (pos 3) (pos 2)
      ≡ some c')
    × (prove_log toy toy_big constant_hash public_77 c' (pos 3) (pos 2) n3 [] n4 (pos 3)
        ≡ some proof)
    × (verify_log toy toy_big constant_hash public_77 c' n3 [] proof ≡ some true)
prove_log-accepted_example =
    prove_log-accepted toy toy_big constant_hash public_77 public_77-IsPublicKey 3 2 3 [] n4

prove_consistency-accepted_example :
    (c' : ℤ) × (proof : ConsistencyProof toy) × (encrypt_with_rho toy_big public_77 (pos 3) (pos 2)
      ≡ some c')
    × (prove_consistency toy toy_big constant_hash public_77 (pos 3) (pos 2) c' n2 [] n4 (pos 3)
        ≡ some proof)
    × (verify_consistency toy toy_big constant_hash public_77 c' n2 [] proof ≡ some true)
prove_consistency-accepted_example =
    prove_consistency-accepted toy toy_big constant_hash public_77 public_77-IsPublicKey 3 2 3 n2 []
      n4 refl

-- A proof with one bit, for the challenge 1 and its root 1.
abbrev one_bit : BlumProof
one_bit = record { challenge_indices = 5 ∷ []; bits = true ∷ []; roots = pos 1 ∷ [] }

verify_blum_iff_example : (verify_blum toy_big constant_hash 77 [] one_bit ≡ some true) ↔ (
    (77 % 4 ≡ 1)
    × (one_bit.bits ≢ [])
    × AllValid toy_big constant_hash 77 [] (5 ∷ []) (true ∷ []) (pos 1 ∷ []))
verify_blum_iff_example = verify_blum_iff toy_big constant_hash 77 [] one_bit

mta_round2-panics_example :
    (msg1 : MtaRound1Msg) × (mta_round1 toy_big constant_hash public_77
        (pos 5)
        8
        []
        (pos 2)
        (pos 9)
        (pos 3)
      ≡ ok (msg1, pos 2))
    × (verify_range toy_big constant_hash public_77 msg1.c_b 8 [] msg1.range_proof ≡ some true)
    × (mta_round2 toy_big constant_hash public_77 msg1 (pos 4) 8 [] (pos 7) (pos 3) ≡ panic)
mta_round2-panics_example =
    mta_round2-panics toy_big constant_hash public_77 5 8 2 9 3 4 6 3 [] public_77-IsPublicKey
      constant_hash_lt (omega arith) (omega arith)

-- 78^5 opens to 5.
mta_finalize-Opens_example :
    mta_finalize toy_big constant_hash toy private_77 public_77
      (record { c_beta = pos (78 ^ 5 % 5929); nosmall_proof = dummy_proof toy_big constant_hash })
      8
      8
      []
    ≡ ok (record { beta = n0 })
mta_finalize-Opens_example =
    mta_finalize-Opens toy_big constant_hash toy public_77 private_77 (78 ^ 5 % 5929) 5 8 8 []
      private_77-IsKeypair refl

prove_blum-accepted_example :
    (proof : BlumProof) × (prove_blum toy_big constant_hash 7 11 77 [] ≡ some proof)
    × ((verify_blum toy_big constant_hash 77 [] proof ≡ some true) ↔ (proof.bits ≢ []))
prove_blum-accepted_example = prove_blum-accepted toy_big constant_hash 7 11 8 refl refl refl []
