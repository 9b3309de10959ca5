-- ===== src/Stack/Runs.antt =====
-- The theorems on the stack of Matrix/stack.h at a concrete stack.
use mgtag.Prelude.{
  ℕ, ◌≡◌, refl, List, [], ◌∷◌, ◌++◌, none, some, replicate, length-replicate, arith,
}
use mgtag.Buffer.Insert.{IsAlloc}
use mgtag.Stack.{Stack, contents, push, pop}
use mgtag.Stack.Laws.{IsStack, push_lem, pop-push, push_small}

abbrev nines : ℕ → List ℕ
nines n = replicate n 9

nines-IsAlloc : IsAlloc nines
nines-IsAlloc n = length-replicate n 9

-- a full stack
abbrev full : Stack
full = record { elements = 4 ∷ 5 ∷ []; top = 2; capacity = 2 }

full-IsStack : IsStack full
full-IsStack = record { room = omega arith; block = refl; grows = omega arith }

push_lem_example :
    (s' : Stack) × (push nines full 7 ≡ some s')
    × IsStack s'
    × (contents s' ≡ contents full ++ 7 ∷ [])
push_lem_example = push_lem nines nines-IsAlloc full 7 full-IsStack

pop-push_example :
    (s1 : Stack) × (s2 : Stack) × (push nines full 7 ≡ some s1)
    × (pop nines s1 ≡ some (7, s2))
    × IsStack s2
    × (contents s2 ≡ contents full)
pop-push_example = pop-push nines nines-IsAlloc full 7 full-IsStack

push_small_example : push nines (record { elements = 3 ∷ []; top = 1; capacity = 1 }) 7 ≡ none
push_small_example =
    push_small nines nines-IsAlloc (record { elements = 3 ∷ []; top = 1; capacity = 1 }) 7
      (omega arith) refl refl
