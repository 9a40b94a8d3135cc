-- ===== src/Capacity/Accounting.antt =====
-- What the operations of `CapacityIndex` do to used hours and to capacities.
use planner_dev.Prelude.{
  ℕ, ◌+◌, ◌≡◌, refl, arith, List, [], ◌∷◌, ◌++◌, ◌&&◌, if◌then◌else◌, nat_eq, pair_eq, ◌==◌,
  nat_beq_iff, ◌∙◌,
}
use planner_dev.Prelude.Int.{ℤ, sub_ℕ}
use planner_dev.Prelude.Dict.{Dict, get_or, put, get-put, get_or-set_default}
use planner_dev.Models.{DayAllocation}
use planner_dev.Capacity.{CapacityIndex, add_hours, base_capacity, used_at, remaining, occupy}

-- The hours that some allocations put on one day of one person.
abbrev pub hours_at : List DayAllocation → ℕ → ℕ → ℕ
hours_at [] p d = 0
hours_at (a ∷ l) p d = (if (a.person_id == p) && (a.day == d) then a.hours else 0) + hours_at l p d

pub hours_at-append :
    (l m : List DayAllocation) (p d : ℕ) → hours_at (l ++ m) p d ≡ hours_at l p d + hours_at m p d
hours_at-append [] m p d = omega arith
hours_at-append (a ∷ l) m p d = omega (arith, hours_at-append l m p d)

get_or-add_hours :
    (used : Dict (ℕ × ℕ) ℕ) (l : List DayAllocation) (p d : ℕ)
    → get_or (add_hours used l) (p, d) 0 ≡ get_or used (p, d) 0 + hours_at l p d
unfolding add_hours
get_or-add_hours used [] p d = omega arith
get_or-add_hours used (a ∷ l) p d =
    let now = get_or used (a.person_id, a.day) 0 + a.hours in
    let used' = put used (a.person_id, a.day) now in
    ground (
      arith,
      get_or-add_hours used' l p d,
      get-put used (a.person_id, a.day) (p, d) now,
      nat_beq_iff a.person_id p,
      nat_beq_iff a.day d,
    )

-- Occupying adds exactly the hours of the allocations, to each person and day that they name.
pub used_at-occupy :
    (idx : CapacityIndex) (l : List DayAllocation) (p d : ℕ)
    → used_at (occupy idx l) p d ≡ used_at idx p d + hours_at l p d
unfolding occupy
used_at-occupy idx l p d = get_or-add_hours idx.used l p d

pub base_capacity-occupy :
    (idx : CapacityIndex) (l : List DayAllocation) (p d : ℕ)
    → base_capacity (occupy idx l) p d ≡ base_capacity idx p d
unfolding occupy base_capacity
base_capacity-occupy idx l p d = refl

-- A read changes no capacity, and no number of hours that a reader can see.
pub used_at-remaining :
    (idx : CapacityIndex) (p d q e : ℕ) → used_at (remaining idx p d).1 q e ≡ used_at idx q e
unfolding remaining
used_at-remaining idx p d q e = get_or-set_default idx.used (p, d) (q, e) 0

pub base_capacity-remaining :
    (idx : CapacityIndex) (p d q e : ℕ)
    → base_capacity (remaining idx p d).1 q e ≡ base_capacity idx q e
unfolding remaining base_capacity
base_capacity-remaining idx p d q e = refl

-- Two indexes that answer every question about capacities and used hours alike.
pub record SameHours (idx idx' : CapacityIndex) : Type 0 where
  pub used : (p d : ℕ) → used_at idx' p d ≡ used_at idx p d
  pub base : (p d : ℕ) → base_capacity idx' p d ≡ base_capacity idx p d

pub SameHours-refl : (idx : CapacityIndex) → SameHours idx idx
SameHours-refl idx = record { used = λ p d. refl; base = λ p d. refl }

pub SameHours-trans :
    {idx idx' idx'' : CapacityIndex}
    → SameHours idx idx'
    → SameHours idx' idx''
    → SameHours idx idx''
SameHours-trans s t = record {
  used = λ p d. t.used p d ∙ s.used p d;
  base = λ p d. t.base p d ∙ s.base p d;
}

pub remaining-SameHours : (idx : CapacityIndex) (p d : ℕ) → SameHours idx (remaining idx p d).1
remaining-SameHours idx p d = record {
  used = used_at-remaining idx p d;
  base = base_capacity-remaining idx p d;
}

-- The hours left on a day, as a reader computes them.
abbrev pub room : CapacityIndex → ℕ → ℕ → ℤ
room idx p d = sub_ℕ (base_capacity idx p d) (used_at idx p d)

pub room-SameHours :
    {idx idx' : CapacityIndex} → SameHours idx idx' → (p d : ℕ) → room idx' p d ≡ room idx p d
room-SameHours s p d = rw (s.used p d, s.base p d)
