-- ===== src/Tests/Ledger.antt =====
-- The ledger with one tag.
use windows_system_wide_filt.Base.{
  [], ◌∷◌, ◌≡◌, some, none, true, false, refl, lookup, success, insufficient_resources, arith,
}
use windows_system_wide_filt.Ledger.{Ledger, reference_object_with_tag, dereference_object_with_tag}
use windows_system_wide_filt.Ledger.Failure.{failure_blocks}
use windows_system_wide_filt.Ledger.Balanced.{Balanced}
use windows_system_wide_filt.Ledger.Calls.{exec, exec-Balanced, refer}
use windows_system_wide_filt.Ledger.Balance.{reference-dereference}

abbrev one_tag : Ledger
one_tag = record {
  ref_count = 1;
  locked = false;
  infos =
      (7, record { ref_count = 1; refs = record { file_name = 97 ∷ []; number_line = 3 } ∷ [] })
      ∷ [];
}

failure_blocks_example :
    (s' : Ledger) × (reference_object_with_tag (98 ∷ []) 4 7 true true false one_tag
      ≡ some (s', insufficient_resources))
    × (dereference_object_with_tag 7 s' ≡ none)
    × (reference_object_with_tag (99 ∷ []) 5 7 true true true s' ≡ none)
failure_blocks_example =
    failure_blocks (98 ∷ []) (99 ∷ []) 4 5 7 7 true true false true true true one_tag refl refl

reference-dereference_example :
    (s' : Ledger) × (reference_object_with_tag (98 ∷ []) 4 8 true true true one_tag
      ≡ some (s', success))
    × (lookup 8 s'.infos
        ≡ some (record {
          ref_count = 1;
          refs = (record { file_name = 98 ∷ []; number_line = 4 }) ∷ [];
        }))
    × (dereference_object_with_tag 8 s' ≡ some one_tag)
unfolding lookup
reference-dereference_example = reference-dereference (98 ∷ []) 4 8 one_tag refl refl (omega arith)

one_tag-Balanced : Balanced one_tag
unfolding lookup
one_tag-Balanced = record {
  free = refl;
  distinct = (refl, tt);
  tags = refl;
  few = omega arith;
  counted = λ tag info there. ground arith;
}

exec-Balanced_example : (s' : Ledger) × (exec (refer (98 ∷ []) 4 7) one_tag ≡ some s') × Balanced s'
unfolding lookup
exec-Balanced_example =
    exec-Balanced (refer (98 ∷ []) 4 7) one_tag one_tag-Balanced
      (omega arith, λ info there. ground (arith, there))
