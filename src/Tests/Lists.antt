-- ===== src/Tests/Lists.antt =====
-- lib/list.c: two elements between the sentinels at 100 and 200.
use the_one_os.Common.{◌≡◌, refl, true, some, [], ◌∷◌, arith, ◌==◌, if◌then◌else◌}
use the_one_os.Interrupt.{intr_on}
use the_one_os.DList.{
  Links, DList, list_init, list_insert_before, list_append, list_push, list_remove, list_pop,
  list_len, list_traversal, elem_find,
}
use the_one_os.DList.Chain.{IsDList}
use the_one_os.DList.Ops.{
  insert_before-IsDList, remove-IsDList, push-IsDList, append-IsDList, pop-IsDList,
  insert_before-other,
}
use the_one_os.DList.Walk.{list_len_lem, elem_find_lem, list_traversal_lem}

abbrev list : DList
list = record { head = 100; tail = 200 }

abbrev links : Links
links = record {
  next = λ p. if p == 100 then 1 else if p == 1 then 2 else if p == 2 then 200 else 0;
  prev = λ p. if p == 200 then 2 else if p == 2 then 1 else if p == 1 then 100 else 0;
  intr = intr_on;
}

links-IsDList : IsDList links list (1 ∷ 2 ∷ [])
links-IsDList = record {
  chain = (refl, refl, (refl, refl, (refl, refl)));
  distinct = (refl, (refl, (refl, (refl, tt))));
}

abbrev other : DList
other = record { head = 300; tail = 400 }

abbrev both : Links
both = list_init links other

insert_before_example : IsDList (list_insert_before links 2 3) list (1 ∷ 3 ∷ 2 ∷ [])
insert_before_example = insert_before-IsDList (1 ∷ []) 3 (2 ∷ []) links-IsDList refl

remove_example : IsDList (list_remove links 1) list (2 ∷ [])
remove_example = remove-IsDList [] 1 (2 ∷ []) links-IsDList

push_example : IsDList (list_push links list 3) list (3 ∷ 1 ∷ 2 ∷ [])
push_example = push-IsDList 3 (1 ∷ 2 ∷ []) links-IsDList refl

append_example : IsDList (list_append links list 3) list (1 ∷ 2 ∷ 3 ∷ [])
append_example = append-IsDList 3 (1 ∷ 2 ∷ []) links-IsDList refl

pop_example : ((list_pop links list).0 ≡ 1) × IsDList (list_pop links list).1 list (2 ∷ [])
pop_example = pop-IsDList 1 (2 ∷ []) links-IsDList

-- An insertion into a list whose sentinels are at 300 and 400.
insert_before-other_example : IsDList (list_insert_before links 400 4) list (1 ∷ 2 ∷ [])
insert_before-other_example = insert_before-other 400 4 (1 ∷ 2 ∷ []) links-IsDList refl refl refl

list_len_example : list_len 3 links list ≡ some 2
list_len_example = list_len_lem 3 (1 ∷ 2 ∷ []) links-IsDList (omega arith)

elem_find_example : elem_find 3 links list 2 ≡ some true
elem_find_example = elem_find_lem 3 (1 ∷ 2 ∷ []) links-IsDList (omega arith) 2

list_traversal_example : list_traversal 3 links list (λ e. e == 2) ≡ some (some 2)
list_traversal_example = list_traversal_lem 3 (1 ∷ 2 ∷ []) links-IsDList (omega arith) (λ e. e == 2)
