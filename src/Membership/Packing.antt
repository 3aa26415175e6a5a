-- ===== src/Membership/Packing.antt =====
-- The bytes of a proof are its points one after another, as the program slices them, and each is
-- spelled as circuits/vk-to-rust*.js spell the points of the verifying key.
use kirite.Prelude.{
  ℕ, ◌+◌, ◌≡◌, refl, ap, ◌∙◌, [], ◌++◌, length, replicate, take, drop, length-append, take-append,
  take-append_of_length, drop-append_of_length, drop-append_add, drop-replicate, append_assoc,
  append-nil,
}
use kirite.Bytes.{Bytes, length-be_bytes}
use kirite.Field.{dec_to_be32}
use kirite.Field.RoundTrip.{dec_to_be32-eq-be_bytes}
use kirite.Membership.{Groth16Proof, write_at, pack_groth16_proof}

-- `g1ToBytes` and `g2ToBytes` of circuits/vk-to-rust.js and vk-to-rust-v2.js; `toBE32` there is the
-- loop of `decToBE32`.
pub g1_to_bytes : ℕ × ℕ → Bytes
g1_to_bytes pt = dec_to_be32 pt.0 ++ dec_to_be32 pt.1

pub g2_to_bytes : (ℕ × ℕ) × (ℕ × ℕ) → Bytes
g2_to_bytes pt =
    dec_to_be32 pt.0.1 ++ (dec_to_be32 pt.0.0 ++ (dec_to_be32 pt.1.1 ++ dec_to_be32 pt.1.0))

length-dec_to_be32 : (n : ℕ) → length (dec_to_be32 n) ≡ 32
length-dec_to_be32 n = ap length (dec_to_be32-eq-be_bytes n) ∙ length-be_bytes 32 n

-- A write at the end of what is written, into zeros.
write_at-append :
    (done src : Bytes) (off w k : ℕ)
    → length done ≡ off
    → length src ≡ w
    → write_at (done ++ replicate (w + k) 0) src off ≡ (done ++ src) ++ replicate k 0
unfolding write_at
write_at-append done src off w k at_end width = rw (
  ← at_end,
  take-append,
  width,
  drop-append_add done (replicate (w + k) 0) w,
  drop-replicate {A = ℕ} w k 0,
  append_assoc,
)

write_at-zeros :
    (src : Bytes) (w k : ℕ)
    → length src ≡ w
    → write_at (replicate (w + k) 0) src 0 ≡ src ++ replicate k 0
write_at-zeros src w k width = write_at-append [] src 0 w k refl width

two_writes :
    (m n : ℕ)
    → write_at (write_at (replicate 64 0) (dec_to_be32 m) 0) (dec_to_be32 n) 32
      ≡ dec_to_be32 m ++ dec_to_be32 n
two_writes m n =
    rw
      (
        write_at-zeros (dec_to_be32 m) 32 32 (length-dec_to_be32 m),
        write_at-append (dec_to_be32 m) (dec_to_be32 n) 32 32 0 (length-dec_to_be32 m)
            (length-dec_to_be32 n),
      )
      (append-nil _)

length-g1 : (pt : ℕ × ℕ) → length (g1_to_bytes pt) ≡ 64
unfolding g1_to_bytes
length-g1 pt = simp (length-append, length-dec_to_be32)

length-g2 : (pt : (ℕ × ℕ) × (ℕ × ℕ)) → length (g2_to_bytes pt) ≡ 128
unfolding g2_to_bytes
length-g2 pt = simp (length-append, length-dec_to_be32)

-- The four writes of `b` and the three of `out`.
four_writes :
    (x y z w : Bytes)
    → length x ≡ 32
    → length y ≡ 32
    → length z ≡ 32
    → length w ≡ 32
    → write_at (write_at (write_at (write_at (replicate 128 0) x 0) y 32) z 64) w 96
      ≡ x ++ (y ++ (z ++ w))
four_writes x y z w hx hy hz hw =
    rw
      (
        write_at-zeros x 32 96 hx,
        write_at-append x y 32 32 64 hx hy,
        write_at-append (x ++ y) z 64 32 32 (simp (length-append, hx, hy)) hz,
        write_at-append ((x ++ y) ++ z) w 96 32 0 (simp (length-append, hx, hy, hz)) hw,
      )
      (simp (append-nil, append_assoc))

three_writes :
    (a b c : Bytes)
    → length a ≡ 64
    → length b ≡ 128
    → length c ≡ 64
    → write_at (write_at (write_at (replicate 256 0) a 0) b 64) c 192 ≡ a ++ (b ++ c)
three_writes a b c ha hb hc =
    rw
      (
        write_at-zeros a 64 192 ha,
        write_at-append a b 64 128 64 ha hb,
        write_at-append (a ++ b) c 192 64 0 (simp (length-append, ha, hb)) hc,
      )
      (simp (append-nil, append_assoc))

-- The packed proof is its three points, each as the verifying key's points are spelled.
pub pack_groth16_proof-eq :
    (proof : Groth16Proof)
    → pack_groth16_proof proof
      ≡ g1_to_bytes proof.pi_a ++ (g2_to_bytes proof.pi_b ++ g1_to_bytes proof.pi_c)
unfolding pack_groth16_proof g1_to_bytes g2_to_bytes
pack_groth16_proof-eq proof =
    rw
      (
        two_writes proof.pi_a.0 proof.pi_a.1,
        two_writes proof.pi_c.0 proof.pi_c.1,
        four_writes _ _ _ _ (length-dec_to_be32 proof.pi_b.0.1) (length-dec_to_be32 proof.pi_b.0.0)
            (length-dec_to_be32 proof.pi_b.1.1) (length-dec_to_be32 proof.pi_b.1.0),
      )
      (three_writes _ _ _ (length-g1 proof.pi_a) (length-g2 proof.pi_b) (length-g1 proof.pi_c))

slices :
    (a b c : Bytes)
    → length a ≡ 64
    → length b ≡ 128
    → length c ≡ 64
    → (length (a ++ (b ++ c)) ≡ 256)
      × (take 64 (a ++ (b ++ c)) ≡ a)
      × (take 128 (drop 64 (a ++ (b ++ c))) ≡ b)
      × (drop 192 (a ++ (b ++ c)) ≡ c)
slices a b c ha hb hc = (
  simp (length-append, ha, hb, hc),
  take-append_of_length 64 a (b ++ c) ha,
  rw (drop-append_of_length 64 a (b ++ c) ha) (take-append_of_length 128 b c hb),
  rw (← append_assoc a b c) (drop-append_of_length 192 (a ++ b) c (simp (length-append, ha, hb))),
)

-- The 256 bytes of a packed proof, sliced as `verify_membership_proof` slices them, are its points
-- in the spelling of the verifying key's points.
pack_groth16_proof_slices :
    (proof : Groth16Proof)
    → (length (pack_groth16_proof proof) ≡ 256)
      × (take 64 (pack_groth16_proof proof) ≡ g1_to_bytes proof.pi_a)
      × (take 128 (drop 64 (pack_groth16_proof proof)) ≡ g2_to_bytes proof.pi_b)
      × (drop 192 (pack_groth16_proof proof) ≡ g1_to_bytes proof.pi_c)
pack_groth16_proof_slices proof =
    rw (pack_groth16_proof-eq proof)
      (slices _ _ _ (length-g1 proof.pi_a) (length-g2 proof.pi_b) (length-g1 proof.pi_c))
