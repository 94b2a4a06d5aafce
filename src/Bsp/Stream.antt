-- ===== src/Bsp/Stream.antt =====
-- The loops of `BspInstance` (pysim/pySim/esim/bsp.py) over the segments of a plaintext and over
-- a list of protected segments.
use virtual_rsp.Common.{ℕ, zero, suc, List, [], ◌∷◌, ◌++◌, ltb, if◌then◌else◌, length, take, drop}
use virtual_rsp.Common.Exec.{Exec, pure, ◌>>=◌}
use virtual_rsp.Bsp.Padding.{Bytes}
use virtual_rsp.Bsp.Algo.{
  Crypto, Bsp, max_payload_size, encrypt_and_mac_one, mac_only_one, demac_and_decrypt_one,
  demac_only_one,
}

-- The next segment and the remainder: one round of the `while` loop.
unfoldable pub next_segment : ℕ → Bytes → Bytes × Bytes
next_segment most m = if ltb (length m) most then (m, []) else (take most m, drop most m)

-- `while len(remainder)`, on fuel. A round takes at least one byte, so the length of the plaintext
-- is enough fuel.
unfoldable pub over_segments : ℕ → (Bytes → Exec Bsp Bytes) → ℕ → Bytes → Exec Bsp (List Bytes)
unfolding next_segment
over_segments most one zero m = pure []
over_segments most one (suc fuel) [] = pure []
over_segments most one (suc fuel) (b ∷ bs) =
    let rest = over_segments most one fuel (next_segment most (b ∷ bs)).1 in
    do out ← one (next_segment most (b ∷ bs)).0; outs ← rest; pure (out ∷ outs)

-- `b''.join([one(x) for x in …])`
unfoldable pub join_each : (Bytes → Exec Bsp Bytes) → List Bytes → Exec Bsp Bytes
join_each one [] = pure []
join_each one (x ∷ xs) = let rest = join_each one xs in do p ← one x; ps ← rest; pure (p ++ ps)

module _ (c : Crypto) where
  unfoldable pub encrypt_and_mac : ℕ → Bytes → Exec Bsp (List Bytes)
  encrypt_and_mac tag m =
      over_segments (max_payload_size c) (encrypt_and_mac_one c tag) (length m) m

  unfoldable pub mac_only : ℕ → Bytes → Exec Bsp (List Bytes)
  mac_only tag m = over_segments (max_payload_size c) (mac_only_one c tag) (length m) m

  unfoldable pub demac_and_decrypt : List Bytes → Exec Bsp Bytes
  demac_and_decrypt = join_each (demac_and_decrypt_one c)

  unfoldable pub demac_only : List Bytes → Exec Bsp Bytes
  demac_only = join_each (demac_only_one c)
