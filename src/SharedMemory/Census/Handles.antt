-- ===== src/SharedMemory/Census/Handles.antt =====
-- Lists of handles on one object (source/shared_memory.h).
use ipm.Base.{
  ℕ, zero, suc, ◌≤◌, ◌<◌, ◌-◌, ◌≡◌, refl, ap, false, List, [], ◌∷◌, some, arith, length, get_elem?,
  set,
}
use ipm.Layout.{SharedMemoryBlock}
use ipm.SharedMemory.Mapping.Laws.{SameIdentity}

-- The list without its element of an index.
abbrev pub erase : {A : Type 0} → ℕ → List A → List A
erase i [] = []
erase zero (x ∷ xs) = xs
erase (suc i) (x ∷ xs) = x ∷ erase i xs

pub length-erase :
    {A : Type 0} (i : ℕ) (xs : List A) (x : A)
    → get_elem? xs i ≡ some x
    → length (erase i xs) ≡ length xs - 1
length-erase i [] x e = absurd (ground arith)
length-erase zero (y ∷ ys) x e = omega arith
length-erase (suc i) (y ∷ []) x e = cc e
length-erase (suc i) (y ∷ z ∷ zs) x e = omega (arith, length-erase i (z ∷ zs) x e)

pub get_elem?-length :
    {A : Type 0} (xs : List A) (i : ℕ) (x : A) → get_elem? xs i ≡ some x → i < length xs
get_elem?-length [] i x e = absurd (ground arith)
get_elem?-length (y ∷ ys) zero x e = omega arith
get_elem?-length (y ∷ ys) (suc i) x e = omega (arith, get_elem?-length ys i x e)

-- Handles on `o` that do not own it. Their ids fall along the list, from below `n` on.
abbrev pub Falling : ℕ → ℕ → List SharedMemoryBlock → Type 0
Falling o n [] = Unit {0}
Falling o n (b ∷ bs) =
    (b.access_id < n) × (b.header.object ≡ o) × (b.has_ownership ≡ false) × Falling o b.access_id bs

pub Falling-mono :
    {m n : ℕ} (o : ℕ) (bs : List SharedMemoryBlock) → m ≤ n → Falling o m bs → Falling o n bs
Falling-mono o [] h f = tt
Falling-mono o (b ∷ bs) h (below, on, free, rest) = (omega arith, on, free, rest)

pub erase-Falling :
    (i o n : ℕ) (bs : List SharedMemoryBlock) → Falling o n bs → Falling o n (erase i bs)
erase-Falling i o n [] f = tt
erase-Falling zero o n (b ∷ bs) (below, on, free, rest) = Falling-mono o bs (omega arith) rest
erase-Falling (suc i) o n (b ∷ bs) (below, on, free, rest) =
    (below, on, free, erase-Falling i o b.access_id bs rest)

pub Falling-get :
    (i o n : ℕ) (bs : List SharedMemoryBlock) (b : SharedMemoryBlock)
    → Falling o n bs
    → get_elem? bs i ≡ some b
    → (b.access_id < n) × (b.header.object ≡ o) × (b.has_ownership ≡ false)
Falling-get i o n [] b f e = cc e
Falling-get zero o n (c ∷ bs) b (below, on, free, rest) e = ground (arith, e)
Falling-get (suc i) o n (c ∷ bs) b (below, on, free, rest) e =
    let found = Falling-get i o c.access_id bs b rest e in (omega (arith, found), found.1, found.2)

-- Another handle of the same id in one's place.
pub set-Falling :
    (i o n : ℕ) (bs : List SharedMemoryBlock) (b c : SharedMemoryBlock)
    → Falling o n bs
    → get_elem? bs i ≡ some b
    → SameIdentity b c
    → Falling o n (set bs i c)
set-Falling i o n [] b c f e s = tt
set-Falling zero o n (d ∷ bs) b c (below, on, free, rest) e s = (
  ground (arith, e, s.access_id),
  ground (arith, e, s.header, on),
  ground (arith, e, s.has_ownership, free),
  Falling-mono o bs (ground (arith, e, s.access_id)) rest,
)
set-Falling (suc i) o n (d ∷ bs) b c (below, on, free, rest) e s =
    (below, on, free, set-Falling i o d.access_id bs b c rest e s)

-- No two of them have the same id.
pub Falling-distinct :
    (i j o n : ℕ) (bs : List SharedMemoryBlock) (b c : SharedMemoryBlock)
    → Falling o n bs
    → get_elem? bs i ≡ some b
    → get_elem? bs j ≡ some c
    → b.access_id ≡ c.access_id
    → i ≡ j
Falling-distinct i j o n [] b c f ei ej same = cc ei
Falling-distinct zero zero o n (d ∷ bs) b c f ei ej same = refl
Falling-distinct zero (suc j) o n (d ∷ bs) b c (below, on, free, rest) ei ej same =
    absurd (ground (arith, ei, Falling-get j o d.access_id bs c rest ej))
Falling-distinct (suc i) zero o n (d ∷ bs) b c (below, on, free, rest) ei ej same =
    absurd (ground (arith, ej, Falling-get i o d.access_id bs b rest ei))
Falling-distinct (suc i) (suc j) o n (d ∷ bs) b c (below, on, free, rest) ei ej same =
    ap suc (Falling-distinct i j o d.access_id bs b c rest ei ej same)
