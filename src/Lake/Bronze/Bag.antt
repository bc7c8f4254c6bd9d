-- ===== src/Lake/Bronze/Bag.antt =====
-- The bronze table as its readers query it: a bag of rows, which has no order.
use mathlib.Core.List.{Permᴰ}
use mathlib.Core.List.Permᴰ
use mathlib.Core.Quot
use mathlib.Core.Quot.{Quot, Quot-set}
use gridlens.Prelude.{ℕ, ◌≡◌, true, false, List, any, All}
use gridlens.Lake.Bronze.{Row, same_period, in_window, merge}
use gridlens.Lake.Bronze.Unique.{Unique, merge-Unique}
use gridlens.Lake.Bronze.Merge.{merge_idempotent}
use gridlens.Lake.Bronze.Order.{merge-Perm}
use gridlens.Lake.Bronze.Exchange.{merge-merge-Perm}

-- A table without two rows of one identity.
abbrev pub Table : Type 0
Table = (rows : List Row) × Unique rows

abbrev Same : Table → Table → Type 0
Same a b = Permᴰ a.0 b.0

-- Tables up to the order of their rows.
abbrev pub Bag : Type 0
Bag = Quot Same

abbrev pub bag_of : Table → Bag
bag_of = Quot.mk

-- What the loader stages for one window.
pub record Load : Type 0 where
  pub start : ℕ
  pub end : ℕ
  pub staged : List Row
  pub unique : Unique staged
  pub within : All (λ r. in_window start end r ≡ true) staged

merge_table : Load → Table → Table
merge_table b table = (
  merge b.start b.end b.staged table.0,
  (merge-Unique b.start b.end b.staged table.0 table.1 b.unique b.within).0,
)

-- The MERGE as an operation on bags.
pub merge_bag : Load → Bag → Bag
unfolding merge_table
merge_bag b =
    Quot.lift Quot-set (λ table. bag_of (merge_table b table))
      (λ x y p. Quot.sound (merge-Perm b.start b.end x.1 (Permᴰ.refl b.staged) p))

merge_bag_comm :
    (a b : Load)
    → All (λ r. any (λ t. same_period t r) a.staged ≡ false) b.staged
    → (table : Bag) → merge_bag b (merge_bag a table) ≡ merge_bag a (merge_bag b table)
unfolding merge_bag merge_table
merge_bag_comm a b apart =
    Quot.ind (λ t. Quot-set _ _)
      (λ t. Quot.sound (merge-merge-Perm a.start a.end b.start b.end a.staged b.staged t.0 apart))

merge_bag_again :
    (a : Load) (k : ℕ)
    → All (λ r. r.known_at ≡ k) a.staged
    → (table : Bag) → merge_bag a (merge_bag a table) ≡ merge_bag a table
unfolding merge_bag merge_table
merge_bag_again a k known =
    Quot.ind (λ t. Quot-set _ _)
      (λ t. Quot.sound (
        rw (merge_idempotent a.start a.end k a.staged t.0 known a.within)
          (Permᴰ.refl (merge a.start a.end a.staged t.0))))

-- On bags of rows without two of one identity, for loads whose rows have no identity twice and lie in
-- their window: if no row of the second has a period of the first, and the first is known at one
-- time, then the two can be merged in either order, and merging the first again changes nothing.
pub merge_bag_laws :
    (a b : Load) (k : ℕ) (table : Bag)
    → All (λ r. any (λ t. same_period t r) a.staged ≡ false) b.staged
    → All (λ r. r.known_at ≡ k) a.staged
    → (merge_bag b (merge_bag a table) ≡ merge_bag a (merge_bag b table))
      × (merge_bag a (merge_bag a table) ≡ merge_bag a table)
merge_bag_laws a b k table apart known =
    (merge_bag_comm a b apart table, merge_bag_again a k known table)
