-- ===== src/Reach/Labels.antt =====
-- Matrix/reach.h, Matrix/reach.cpp: the arrays of the finished index, as a query reads them.
-- `new_id` is over the vertices; all other arrays but `lup` and `ldown` are over the new ids,
-- which count from 1. A read past the end of an array is outside the model: it yields 0 or no entry.
use mgtag.Prelude.{ℕ, List, [], get_or}

pub record Labels : Type 0 where
  pub new_id : List ℕ
  pub lup : List ℕ
  pub ldown : List ℕ
  pub rl : List ℕ
  pub rlt : List ℕ
  pub interval : List ℕ
  pub excp : List (List ℕ)
  pub cross : List (List ℕ)

module _ (lb : Labels) where
  abbrev pub new_of : ℕ → ℕ
  new_of v = get_or lb.new_id v 0

  abbrev pub up_of : ℕ → ℕ
  up_of v = get_or lb.lup v 0

  abbrev pub down_of : ℕ → ℕ
  down_of v = get_or lb.ldown v 0

  abbrev pub layer_of : ℕ → ℕ
  layer_of a = get_or lb.rl a 0

  abbrev pub tree_of : ℕ → ℕ
  tree_of a = get_or lb.rlt a 0

  abbrev pub end_of : ℕ → ℕ
  end_of a = get_or lb.interval a 0

  abbrev pub excp_of : ℕ → List ℕ
  excp_of a = get_or lb.excp a []

  abbrev pub cross_of : ℕ → List ℕ
  cross_of a = get_or lb.cross a []
