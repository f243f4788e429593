-- ===== src/Template/Render/Schedule.antt =====
-- The blocks that a response takes: the reference's offers in turn, once around for every cycle.
use mathlib.Core.List.{append-nil, append_assoc}
use native.Mathlib.Nat.{
  suc-mul, mod-eq_of_lt, div-eq_of_lt, add-mul-mod_self_right, add-mul-div_right,
}
use ndc_mock.Prelude.{
  ℕ, zero, suc, ◌+◌, ◌*◌, ◌/◌, ◌%◌, ◌<◌, ◌≡◌, refl, sym, ap, ◌∙◌, Option, some, List, [], ◌∷◌, ◌++◌,
  map, length, length-append, get_elem?, arith,
}
use ndc_mock.Template.Chunk.{Chunk}
use ndc_mock.Template.Render.{schedule}

get_elem-middle :
    (front : List Chunk) (b : Chunk) (back : List Chunk)
    → get_elem? (front ++ (b ∷ back)) (length front) ≡ some b
get_elem-middle [] b back = refl
get_elem-middle (a ∷ front) b back = get_elem-middle front b back

-- Every block with the number of its cycle.
abbrev pub in_cycle : ℕ → List Chunk → List (Chunk × ℕ)
in_cycle c bs = map (λ b. (b, c)) bs

-- All blocks, `k` times around from the cycle `c` on.
unfoldable pub cycles : List Chunk → ℕ → ℕ → List (Chunk × ℕ)
cycles blocks c zero = []
cycles blocks c (suc k) = in_cycle c blocks ++ cycles blocks (suc c) k

at_most : (i j l : ℕ) → l ≡ i + suc j → i < l
at_most i j l e = omega arith

suc-times : (c l : ℕ) → l + c * l ≡ suc c * l
suc-times c l = sym (suc-mul c l ∙ omega arith)

suc-plus : (k l m : ℕ) → suc k * l + m ≡ l + (k * l + m)
suc-plus k l m = omega (arith, suc-times k l)

plus-times : (k l : ℕ) → (0 + k) * l ≡ 0 + k * l
plus-times k l = ap (λ x. x * l) {x = 0 + k} {y = k} (omega arith) ∙ omega arith

shift :
    (blocks : List Chunk) (r : Option (List (Chunk × ℕ))) (i j m n : ℕ)
    → i ≡ j
    → m ≡ n
    → schedule blocks j n ≡ r
    → schedule blocks i m ≡ r
shift blocks r i j m n e f h =
    ap (λ x. schedule blocks x m) e ∙ (ap (λ x. schedule blocks j x) f ∙ h)

module _ (blocks : List Chunk) (c : ℕ) where
  place-lt :
      (front back : List Chunk) (b : Chunk)
      → blocks ≡ front ++ (b ∷ back)
      → length front < length blocks
  place-lt front back b e =
      at_most (length front) (length back) (length blocks)
        (ap (λ (l : List Chunk). length l) e ∙ length-append front (b ∷ back))

  place-mod : (i : ℕ) → i < length blocks → (i + c * length blocks) % length blocks ≡ i
  place-mod i lt = add-mul-mod_self_right i c (length blocks) ∙ mod-eq_of_lt lt

  place-div : (i : ℕ) → i < length blocks → (i + c * length blocks) / length blocks ≡ c
  place-div i lt =
      let pos : zero < length blocks = omega (arith, lt) in
      add-mul-div_right i c {z = length blocks} pos
      ∙ (ap (λ q. q + c) (div-eq_of_lt lt) ∙ omega arith)

  schedule-suc :
      (front back : List Chunk) (b : Chunk) (m : ℕ) (rest : List (Chunk × ℕ))
      → blocks ≡ front ++ (b ∷ back)
      → schedule blocks (suc (length front + c * length blocks)) m ≡ some rest
      → schedule blocks (length front + c * length blocks) (suc m) ≡ some ((b, c) ∷ rest)
  unfolding schedule
  schedule-suc front back b m rest e h =
      let lt = place-lt front back b e in
      let found : get_elem? blocks (length front) ≡ some b =
        ap (λ (l : List Chunk). get_elem? l (length front)) e ∙ get_elem-middle front b back in
      rw (place-mod (length front) lt, place-div (length front) lt, found, h) refl

  schedule-append :
      (front mid back : List Chunk) (m : ℕ) (rest : List (Chunk × ℕ))
      → blocks ≡ front ++ (mid ++ back)
      → schedule blocks (length (front ++ mid) + c * length blocks) m ≡ some rest
      → schedule blocks (length front + c * length blocks) (length mid + m)
        ≡ some (in_cycle c mid ++ rest)
  schedule-append front [] back m rest e h =
      let i = length front + c * length blocks in
      shift blocks (some rest) i i (0 + m) m refl (omega arith) (rw (append-nil front) at h)
  schedule-append front (b ∷ mid) back m rest e h =
      let step : length (front ++ (b ∷ [])) ≡ suc (length front) =
        length-append front (b ∷ []) ∙ omega arith in
      let later =
        schedule-append (front ++ (b ∷ [])) mid back m rest
          (e ∙ sym (append_assoc front (b ∷ []) (mid ++ back)))
          (rw (append_assoc front (b ∷ []) mid) h) in
      let i = length front + c * length blocks in
      let all = (b, c) ∷ (in_cycle c mid ++ rest) in
      shift blocks (some all) i i (suc (length mid) + m) (suc (length mid + m)) refl (omega arith) (
        schedule-suc front (mid ++ back) b (length mid + m) (in_cycle c mid ++ rest) e (
          shift blocks (some (in_cycle c mid ++ rest)) (suc i)
            (length (front ++ (b ∷ [])) + c * length blocks) (length mid + m) (length mid + m)
            (sym (ap (λ x. x + c * length blocks) step ∙ omega arith)) refl later))

schedule-cycles :
    (blocks : List Chunk) (c k m : ℕ) (rest : List (Chunk × ℕ))
    → schedule blocks ((c + k) * length blocks) m ≡ some rest
    → schedule blocks (c * length blocks) (k * length blocks + m) ≡ some (cycles blocks c k ++ rest)
unfolding cycles
schedule-cycles blocks c zero m rest h =
    let l = length blocks in
    shift blocks (some rest) (c * l) ((c + 0) * l) (0 * l + m) m (ap (λ x. x * l) (omega arith))
      (omega arith) h
schedule-cycles blocks c (suc k) m rest h =
    let l = length blocks in
    let more = in_cycle c blocks ++ (cycles blocks (suc c) k ++ rest) in
    let later = schedule-cycles blocks (suc c) k m rest (
      shift blocks (some rest) ((suc c + k) * l) ((c + suc k) * l) m m
        (ap (λ x. x * l) (omega arith)) refl h) in
    let here =
      schedule-append blocks c [] blocks [] (k * l + m) (cycles blocks (suc c) k ++ rest)
        (sym (append-nil blocks))
        (shift blocks (some (cycles blocks (suc c) k ++ rest)) (l + c * l) (suc c * l) (k * l + m)
          (k * l + m) (suc-times c l) refl later) in
    let all =
      shift blocks (some more) (c * l) (0 + c * l) (suc k * l + m) (l + (k * l + m)) (omega arith)
        (suc-plus k l m) here in
    all ∙ ap some (sym (append_assoc (in_cycle c blocks) (cycles blocks (suc c) k) rest))

-- A response takes the blocks of the reference in their order, around and around: `k` whole cycles,
-- and as many of the first blocks as are left, which are in the cycle `k`.
pub schedule_lem :
    (firsts others : List Chunk) (k : ℕ)
    → schedule (firsts ++ others) 0 (k * length (firsts ++ others) + length firsts)
      ≡ some (cycles (firsts ++ others) 0 k ++ in_cycle k firsts)
unfolding schedule
schedule_lem firsts others k =
    let blocks = firsts ++ others in
    let l = length blocks in
    let start = schedule-append blocks k [] firsts others 0 [] refl refl in
    let part =
      shift blocks (some (in_cycle k firsts)) ((0 + k) * l) (0 + k * l) (length firsts)
        (length firsts + 0) (plus-times k l) (omega arith)
        (start ∙ ap some (append-nil (in_cycle k firsts))) in
    shift blocks (some (cycles blocks 0 k ++ in_cycle k firsts)) 0 (0 * l) (k * l + length firsts)
      (k * l + length firsts) (omega arith) refl
      (schedule-cycles blocks 0 k (length firsts) (in_cycle k firsts) part)
