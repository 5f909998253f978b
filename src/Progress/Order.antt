-- ===== src/Progress/Order.antt =====
-- The order of positions in the redo log that the managers of Progress compare by.
use aresdb.Prelude.{ℕ, ◌≡◌, true, false, arith}
use aresdb.Prelude.Int.{ℤ}
use aresdb.Progress.{is_newer}

pub is_newer_self : (f : ℤ) (o : ℕ) → is_newer f o f o ≡ false
unfolding is_newer
is_newer_self f o = ground arith

pub is_newer_asym : (f g : ℤ) (o p : ℕ) → is_newer f o g p ≡ true → is_newer g p f o ≡ false
unfolding is_newer
is_newer_asym f g o p h = ground arith

-- A position that is not behind another is not behind what that one is not behind.
pub is_newer_trans :
    (f g h : ℤ) (o p q : ℕ)
    → is_newer f o g p ≡ false
    → is_newer g p h q ≡ false
    → is_newer f o h q ≡ false
unfolding is_newer
is_newer_trans f g h o p q a b = ground arith
