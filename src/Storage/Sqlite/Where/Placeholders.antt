-- ===== src/Storage/Sqlite/Where/Placeholders.antt =====
-- The texts and the arguments of the conditions: each argument has its place.
use gi_con_mon.Common.{
  ◌≡◌, refl, arith, List, [], ◌∷◌, length, length-append, marks, marks-append, str_append,
}
use gi_con_mon.Storage.Sqlite.Where.{
  Cond, protocol_is, is_like, target_is, not_before, not_after, status_is, clause, args_of,
  join_and, where_text, where_args,
}

marks-clause : (c : Cond) → marks (clause c) ≡ length (args_of c)
unfolding marks
marks-clause (protocol_is p) = refl
marks-clause (is_like pattern) = refl
marks-clause (target_is id) = refl
marks-clause (not_before t) = refl
marks-clause (not_after t) = refl
marks-clause (status_is s) = refl

marks-join_and : (cs : List Cond) → marks (join_and cs) ≡ length (where_args cs)
unfolding marks join_and where_args
marks-join_and [] = refl
marks-join_and (c ∷ []) = omega (arith, marks-clause c, length-append (args_of c) [])
marks-join_and (c ∷ d ∷ cs) = omega (
  arith,
  marks-clause c,
  marks-join_and (d ∷ cs),
  length-append (args_of c) (where_args (d ∷ cs)),
  marks-append (clause c) (str_append " AND " (join_and (d ∷ cs))),
  marks-append " AND " (join_and (d ∷ cs)),
)

-- The text of a WHERE clause has as many question marks as there are arguments.
pub marks-where_text : (cs : List Cond) → marks (where_text cs) ≡ length (where_args cs)
unfolding where_text marks where_args
marks-where_text [] = refl
marks-where_text (c ∷ cs) =
    omega (arith, marks-append " WHERE " (join_and (c ∷ cs)), marks-join_and (c ∷ cs))
