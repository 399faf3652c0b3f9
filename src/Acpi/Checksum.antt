-- ===== src/Acpi/Checksum.antt =====
-- What the checksum of a table tests.
use helium_os.Prelude.{ℕ, zero, suc, ◌+◌, ◌%◌, ◌<◌, ◌≡◌, ◌↔◌, true, arith}
use helium_os.Elf.{Memory}
use helium_os.Acpi.{table_len, fold_bytes, verify_checksum}

-- The sum of `n` bytes, without wrapping.
abbrev pub total : Memory → ℕ → ℕ → ℕ
total mem adr zero = 0
total mem adr (suc n) = mem adr + total mem (adr + 1) n

fold_bytes-total :
    (mem : Memory) (adr n acc : ℕ) → fold_bytes mem adr n acc % 256 ≡ (acc + total mem adr n) % 256
unfolding fold_bytes
fold_bytes-total mem adr zero acc = omega arith
fold_bytes-total mem adr (suc n) acc =
    omega (arith, fold_bytes-total mem (adr + 1) n ((acc + mem adr) % 256))

fold_bytes-lt : (mem : Memory) (adr n acc : ℕ) → acc < 256 → fold_bytes mem adr n acc < 256
unfolding fold_bytes
fold_bytes-lt mem adr zero acc h = h
fold_bytes-lt mem adr (suc n) acc h =
    fold_bytes-lt mem (adr + 1) n ((acc + mem adr) % 256) (omega arith)

-- The checksum of a table is right exactly when the sum of its bytes is a multiple of 256.
pub verify_checksum_lem :
    (mem : Memory) (adr : ℕ)
    → (verify_checksum mem adr ≡ true) ↔ (total mem adr (table_len mem adr) % 256 ≡ 0)
unfolding verify_checksum
verify_checksum_lem mem adr =
    let sum = fold_bytes-total mem adr (table_len mem adr) 0 in
    let small = fold_bytes-lt mem adr (table_len mem adr) 0 (omega arith) in
    (λ h. ground (arith, h, sum), λ h. ground (arith, h, sum, small))
