-- ===== src/Task/Ring.antt =====
-- kernel/src/task.c: the circular list of tasks as a list of addresses, from any node on, and the
-- memory that its nodes keep live.
use tuna_os.Base.{
  ℕ, zero, suc, ◌<◌, ◌≡◌, refl, inl, inr, true, false, some, List, [], ◌∷◌, ◌++◌, ◌==◌, ==_iff,
  ==_refl, if◌then◌else◌, arith, Bool-cases, ◌∙◌, ap, length, length-append,
}
use tuna_os.Kheap.{Kheap}
use tuna_os.Kheap.Blocks.{Block}
use tuna_os.Kheap.Chain.{IsHeap}
use tuna_os.Kheap.Live.{IsLive}
use tuna_os.Task.{Task, Tasks, find_prev, set_next, walk_fuel}
use tuna_os.Task.Lists.{
  member, IsDistinct, member-swap, IsDistinct-rotate, append_nil, last, member-last,
}

-- From `p` the `next` pointers lead through the nodes of the list to `stop`.
abbrev pub Follows : (ℕ → Task) → (stop : ℕ) → List ℕ → (p : ℕ) → Type 0
Follows nodes stop [] p = p ≡ stop
Follows nodes stop (x ∷ xs) p = (p ≡ x) × Follows nodes stop xs (nodes x).next

abbrev pub IsCycle : (ℕ → Task) → List ℕ → Type 0
IsCycle nodes [] = Unit {0}
IsCycle nodes (x ∷ xs) = Follows nodes x xs (nodes x).next

pub Follows-append :
    (nodes : ℕ → Task) (middle stop p : ℕ) (xs ys : List ℕ)
    → Follows nodes middle xs p
    → Follows nodes stop ys middle
    → Follows nodes stop (xs ++ ys) p
Follows-append nodes middle stop p [] ys f g = rw f g
Follows-append nodes middle stop p (x ∷ xs) ys f g =
    (f.0, Follows-append nodes middle stop (nodes x).next xs ys f.1 g)

pub Follows-split :
    (nodes : ℕ → Task) (stop p y : ℕ) (xs ys : List ℕ)
    → Follows nodes stop (xs ++ y ∷ ys) p
    → Follows nodes y xs p × Follows nodes stop ys (nodes y).next
Follows-split nodes stop p y [] ys f = (f.0, f.1)
Follows-split nodes stop p y (x ∷ xs) ys f =
    let (left, right) = Follows-split nodes stop (nodes x).next y xs ys f.1 in ((f.0, left), right)

-- A circular list may be entered anywhere.
pub IsCycle-rotate :
    (nodes : ℕ → Task) (xs ys : List ℕ) → IsCycle nodes (xs ++ ys) → IsCycle nodes (ys ++ xs)
IsCycle-rotate nodes [] [] c = tt
IsCycle-rotate nodes [] (y ∷ ys) c = rw append_nil c
IsCycle-rotate nodes (x ∷ xs) [] c = rw append_nil at c
IsCycle-rotate nodes (x ∷ xs) (y ∷ ys) c =
    let (left, right) = Follows-split nodes x (nodes x).next y xs ys c in
    Follows-append nodes x y (nodes y).next ys (x ∷ xs) right (refl, left)

-- Other nodes may change.
pub Follows-agree :
    (f g : ℕ → Task) (stop p : ℕ) (xs : List ℕ)
    → ((x : ℕ) → member x xs ≡ true → (g x).next ≡ (f x).next)
    → Follows f stop xs p
    → Follows g stop xs p
Follows-agree f g stop p [] same h = h
Follows-agree f g stop p (x ∷ xs) same h =
    let at = same x (ground (arith, ==_refl x)) in
    (h.0, rw at (Follows-agree f g stop (f x).next xs (λ y m. same y (ground arith)) h.1))

-- The walk stops at the last node in front of the target.
pub find_prev-last :
    (fuel target x : ℕ) (xs : List ℕ) (nodes : ℕ → Task)
    → length xs < fuel
    → Follows nodes target xs (nodes x).next
    → member target xs ≡ false
    → find_prev fuel target x nodes ≡ some (last x xs)
unfolding find_prev
find_prev-last zero target x xs nodes enough f out = absurd (omega arith)
find_prev-last (suc fuel) target x [] nodes enough f out =
    let hit : ((nodes x).next == target) ≡ true = rw f (==_refl target) in rw hit
find_prev-last (suc fuel) target x (y ∷ ys) nodes enough f out =
    let miss : ((nodes x).next == target) ≡ false = rw f.0 (ground arith) in
    rw (miss, f.0) (find_prev-last fuel target y ys nodes (omega arith) f.1 (ground arith))

-- The last node is linked to another place.
pub relink-last :
    (nodes : ℕ → Task) (stop stop' x : ℕ) (xs : List ℕ)
    → IsDistinct (x ∷ xs)
    → Follows nodes stop xs (nodes x).next
    → Follows (set_next (last x xs) stop' nodes) stop' xs (set_next (last x xs) stop' nodes x).next
relink-last nodes stop stop' x [] d f = ground (arith, ==_refl x)
relink-last nodes stop stop' x (y ∷ ys) d f =
    let other : (set_next (last y ys) stop' nodes x).next ≡ (nodes x).next =
      ground (arith, member-last y ys, ==_iff (last y ys) x) in
    (other ∙ f.0, relink-last nodes stop stop' y ys d.1 f.1)

-- The pointers that a task keeps live, and those of a list of tasks.
abbrev pub owned : Task → ℕ → List ℕ
owned task t = if task.stack == 0 then t ∷ [] else t ∷ task.stack ∷ []

abbrev pub all_owned : (ℕ → Task) → List ℕ → List ℕ
all_owned nodes [] = []
all_owned nodes (t ∷ ts) = owned (nodes t) t ++ all_owned nodes ts

pub all_owned-append :
    (nodes : ℕ → Task) (xs ys : List ℕ)
    → all_owned nodes (xs ++ ys) ≡ all_owned nodes xs ++ all_owned nodes ys
all_owned-append nodes [] ys = refl
all_owned-append nodes (x ∷ xs) ys = elim (Bool-cases ((nodes x).stack == 0)) [
  | inl none_there ↦ rw (none_there, all_owned-append nodes xs ys) refl
  | inr there ↦ rw (there, all_owned-append nodes xs ys) refl
]

pub all_owned-agree :
    (f g : ℕ → Task) (xs : List ℕ)
    → ((x : ℕ) → member x xs ≡ true → (g x).stack ≡ (f x).stack)
    → all_owned g xs ≡ all_owned f xs
all_owned-agree f g [] same = refl
all_owned-agree f g (x ∷ xs) same =
    let at = same x (ground (arith, ==_refl x)) in
    rw (at, all_owned-agree f g xs (λ y m. same y (ground arith))) refl

pub all_owned-swap :
    (nodes : ℕ → Task) (xs ys : List ℕ) (p : ℕ)
    → member p (all_owned nodes (xs ++ ys)) ≡ member p (all_owned nodes (ys ++ xs))
all_owned-swap nodes xs ys p =
    rw (all_owned-append nodes xs ys, all_owned-append nodes ys xs)
      (member-swap p (all_owned nodes xs) (all_owned nodes ys))

pub member-all_owned :
    (nodes : ℕ → Task) (x : ℕ) (xs : List ℕ)
    → member x xs ≡ true
    → member x (all_owned nodes xs) ≡ true
member-all_owned nodes x [] m = m
member-all_owned nodes x (y ∷ ys) m = elim (Bool-cases ((nodes y).stack == 0)) [
  | inl e ↦ rw e (ground (arith, member-all_owned nodes x ys))
  | inr e ↦ rw e (ground (arith, member-all_owned nodes x ys))
]

pub IsDistinct-tasks :
    (nodes : ℕ → Task) (xs : List ℕ) → IsDistinct (all_owned nodes xs) → IsDistinct xs
IsDistinct-tasks nodes [] d = tt
IsDistinct-tasks nodes (x ∷ xs) d = elim (Bool-cases ((nodes x).stack == 0)) [
  | inl e ↦
      let (out, rest) = rw e at d in
      (ground (arith, member-all_owned nodes x xs), IsDistinct-tasks nodes xs rest)
  | inr e ↦
      let (out, (_, rest)) = rw e at d in
      (ground (arith, member-all_owned nodes x xs), IsDistinct-tasks nodes xs rest)
]

-- The pointers are live in a well-formed heap.
abbrev pub AllLive : Kheap → List ℕ → Type 0
AllLive h ps = (bs : List Block) × IsHeap h bs × ((p : ℕ) → member p ps ≡ true → IsLive h bs p)

-- The tasks form a circular list that contains `task_list`, is not longer than the walks and keeps
-- its memory, all of it distinct.
pub record IsRing (s : Tasks) (ring : List ℕ) : Type 0 where
  pub cycle : IsCycle s.nodes ring
  pub distinct : IsDistinct (all_owned s.nodes ring)
  pub live : AllLive s.heap (all_owned s.nodes ring)
  pub listed : member s.task_list ring ≡ true
  pub room : length ring < walk_fuel

pub IsRing-rotate : (s : Tasks) (xs ys : List ℕ) → IsRing s (xs ++ ys) → IsRing s (ys ++ xs)
IsRing-rotate s xs ys r =
    let (bs, heap, live) = r.live in
    record {
      cycle = IsCycle-rotate s.nodes xs ys r.cycle;
      distinct = rw (all_owned-append s.nodes ys xs) (
          IsDistinct-rotate (all_owned s.nodes xs) (all_owned s.nodes ys)
            (rw (all_owned-append s.nodes xs ys) at r.distinct));
      live = (bs, heap, λ p m. live p rw (all_owned-swap s.nodes xs ys p) m);
      listed = rw (member-swap s.task_list ys xs) r.listed;
      room = omega (arith, r.room, length-append xs ys, length-append ys xs);
    }

pub IsCycle-agree :
    (f g : ℕ → Task) (xs : List ℕ)
    → ((x : ℕ) → (g x).next ≡ (f x).next)
    → IsCycle f xs
    → IsCycle g xs
IsCycle-agree f g [] same c = tt
IsCycle-agree f g (x ∷ xs) same c =
    rw (same x) (Follows-agree f g x (f x).next xs (λ y m. same y) c)

-- Only the links, the stacks and the heap matter.
pub IsRing-agree :
    (s t : Tasks) (ring : List ℕ)
    → ((x : ℕ) → (t.nodes x).next ≡ (s.nodes x).next)
    → ((x : ℕ) → (t.nodes x).stack ≡ (s.nodes x).stack)
    → t.heap ≡ s.heap
    → t.task_list ≡ s.task_list
    → IsRing s ring
    → IsRing t ring
IsRing-agree s t ring next stack heap list r =
    let owned' = all_owned-agree s.nodes t.nodes ring (λ x m. stack x) in
    record {
      cycle = IsCycle-agree s.nodes t.nodes ring next r.cycle;
      distinct = rw owned' r.distinct;
      live = rw (owned', heap) r.live;
      listed = ap (λ (k : ℕ). member k ring) list ∙ r.listed;
      room = r.room;
    }

pub nonzero :
    (s : Tasks) (t : ℕ) (ring : List ℕ) → IsRing s ring → member t ring ≡ true → (t == 0) ≡ false
nonzero s t ring r m =
    let (bs, heap, live) = r.live in
    let (q, k, e, o) = live t (member-all_owned s.nodes t ring m) in ground (arith, e)
