-- ===== src/Core/Manager/Lock.antt =====
-- What the manager uses of the `RwLock` of async_std.
use cable_rs.Base.{ℕ, ◌≡◌, refl, nat_beq, Option, none, some, if◌then◌else◌}

-- `reading` is a free lock that one task has then taken by `read` and still holds. `write` is `none`
-- where the task waits. `drop_write` gives a lock free that was taken by `write`.
pub record RwLock : Type 1 where
  pub State : Type 0
  pub reading : State
  pub write : State → Option State
  pub drop_write : State → State

-- What is relied on: `write` waits while the lock is held for reading.
pub record RwLockLaws (lk : RwLock) : Type 1 where
  pub write-waits : lk.write lk.reading ≡ none

-- An instance for the examples: the number of those that hold the lock.
abbrev pub counted : RwLock
counted = record {
  State = ℕ;
  reading = 1;
  write = λ n. if nat_beq n 0 then some 1 else none;
  drop_write = λ _. 0;
}

abbrev pub counted_laws : RwLockLaws counted
counted_laws = record { write-waits = refl }
