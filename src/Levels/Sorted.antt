-- ===== src/Levels/Sorted.antt =====
-- The order of the prices of a side.
use nano_exchange.Base.{ℕ, ◌≡◌, true, false, List, arith, ◌==◌, All-map}
use nano_exchange.Types.{Side, buy, sell, PriceLevel}
use nano_exchange.Levels.{before, Before, After}

pub Before-trans : (s : Side) (a b c : ℕ) → Before s a b → Before s b c → Before s a c
Before-trans buy a b c h k = omega arith
Before-trans sell a b c h k = omega arith

pub Before-ne : (s : Side) (a b : ℕ) → Before s a b → (b == a) ≡ false
Before-ne buy a b h = ground arith
Before-ne sell a b h = ground arith

pub before→Before : (s : Side) (a b : ℕ) → before s a b ≡ true → Before s a b
before→Before buy a b h = ground arith
before→Before sell a b h = ground arith

pub Before→before : (s : Side) (a b : ℕ) → Before s a b → before s a b ≡ true
Before→before buy a b h = ground arith
Before→before sell a b h = ground arith

-- The comparison of a map is total.
pub Before-of_not : (s : Side) (a b : ℕ) → before s a b ≡ false → (b == a) ≡ false → Before s b a
Before-of_not buy a b h k = ground arith
Before-of_not sell a b h k = ground arith

-- What comes after a price comes after an earlier one.
pub After-trans :
    (s : Side) (a b : ℕ) (ls : List PriceLevel) → Before s a b → After s b ls → After s a ls
After-trans s a b ls h = All-map _ _ ls (λ l k. Before-trans s a b l.price h k)
