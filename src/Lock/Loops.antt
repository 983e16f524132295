-- ===== src/Lock/Loops.antt =====
-- The loops of `read_lock` and `write_lock` while no other process changes the word.
use membridge.Common.{ℕ, zero, suc, ◌<◌, ◌≡◌, some, none, arith, if◌then◌else◌, ◌==◌}
use membridge.Lock.{is_nonneg, add_one, write_locked, read_lock, write_lock}

-- However many rounds it is given, one or more, while no other process changes the word: `read_lock`
-- adds one to the word if it is not negative, and spins on otherwise.
pub read_lock_lem :
    (spins word : ℕ)
    → 0 < spins
    → read_lock spins word ≡ (if is_nonneg word then some (add_one word) else none)
unfolding read_lock
read_lock_lem zero word h = absurd (omega arith)
read_lock_lem (suc zero) word h = ground arith
read_lock_lem (suc (suc spins)) word h =
    ground (arith, read_lock_lem (suc spins) word (omega arith))

-- However many rounds it is given, one or more, while no other process changes the word: `write_lock`
-- stores -1 if the word is zero, and spins on otherwise.
pub write_lock_lem :
    (spins word : ℕ)
    → 0 < spins
    → write_lock spins word ≡ (if word == 0 then some write_locked else none)
unfolding write_lock
write_lock_lem zero word h = absurd (omega arith)
write_lock_lem (suc zero) word h = ground arith
write_lock_lem (suc (suc spins)) word h =
    ground (arith, write_lock_lem (suc spins) word (omega arith))
