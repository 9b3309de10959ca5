-- ===== src/Stack.antt =====
-- Matrix/stack.h: the growing and shrinking stack of vertices. `alloc n` is the content of `n` new cells;
-- `none` is an access outside the block.
pub mod Laws
mod Runs
use mgtag.Prelude.{
  ℕ, zero, suc, ◌+◌, ◌-◌, ◌*◌, ◌/◌, Bool, true, false, ◌&&◌, List, [], ◌++◌, Option, none, some,
  length, take, get_or, set, ltb, leb, ◌==◌, if◌then◌else◌,
}

pub record Stack : Type 0 where
  pub elements : List ℕ
  pub top : ℕ
  pub capacity : ℕ

-- what lies on the stack, the last on top
abbrev pub contents : Stack → List ℕ
contents s = take s.top s.elements

unfoldable pub is_full : Stack → Bool
is_full s = leb s.capacity s.top

unfoldable pub is_empty : Stack → Bool
is_empty s = s.top == 0

module _ (alloc : ℕ → List ℕ) where
  unfoldable pub new_stack : ℕ → Stack
  new_stack capacity = record { elements = alloc capacity; top = 0; capacity = capacity }

  -- `realloc` to `n` cells
  unfoldable pub resize : ℕ → Stack → Stack
  resize n s = record s { elements = take n (s.elements ++ alloc n); capacity = n }

  unfoldable pub grown : Stack → Stack
  grown s = if is_full s then resize (s.capacity * 3 / 2) s else s

  unfoldable pub push : Stack → ℕ → Option Stack
  push s val =
      let t = grown s in
      if ltb t.top (length t.elements)
      then some (record t { elements = set t.elements t.top val; top = t.top + 1 })
      else none

  unfoldable pub shrunk : Stack → Stack
  shrunk s =
      if ltb 4096 s.capacity && ltb s.top (s.capacity / 2) then resize (s.capacity * 2 / 3) s else s

  -- On an empty stack `top--` wraps around, and the read is outside the block.
  unfoldable pub pop : Stack → Option (ℕ × Stack)
  pop s =
      let t = shrunk s in
      if t.top == 0
      then none
      else some (get_or t.elements (t.top - 1) 0, record t { top = t.top - 1 })
