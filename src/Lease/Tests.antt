-- ===== src/Lease/Tests.antt =====
-- Runs of the leases on a storage that is a function of the key.
use circleup.Prelude.{
  ◌≡◌, refl, sym, ◌∙◌, ap, String, true, false, Option, none, some, List, [], ◌∷◌, if◌then◌else◌,
  str_eq, eq_iff, arith,
}
use circleup.Lease.{
  StoredText, lease, malformed, LeaseStore, LeaseStep, acquire, release, lease_ttl_ms, read_lease,
  try_acquire_lease, is_lease_held_by_other, run_steps, release_lease,
}
use circleup.Lease.Laws.{try_acquire_lease_excludes}

abbrev Contents : Type 0
Contents = String → Option StoredText

abbrev put : Contents → String → Option StoredText → Contents
put s k v j = if str_eq k j then v else s j

abbrev at_key : Option Contents → String → Option StoredText
at_key none j = none
at_key (some s) j = s j

same_key : (k : String) → str_eq k k ≡ true
same_key k = (eq_iff k k).1 refl

abbrev browser : LeaseStore Contents
browser = record {
  get_item = λ s k. s k;
  set_item = λ s k v. some (put s k (some v));
  remove_item = λ s k. put s k none;
  get-set_same = λ s s' k v h. sym (ap (λ o. at_key o k) h) ∙ rw (same_key k) refl;
  get-set_other = λ s s' k j v e h. sym (ap (λ o. at_key o j) h) ∙ rw e refl;
  get-remove_other = λ s k j e. rw e refl;
}

abbrev nothing : Contents
nothing k = none

abbrev broken : Contents
broken k = some malformed

abbrev holding : Contents
holding = put nothing "pay" (some (lease (record { tab = "a"; expires_at = 60100 })))

-- Another tab asks, a tab takes another key, and releases it.
abbrev others : List LeaseStep
others =
    acquire "pay" "b" 200 lease_ttl_ms ∷ acquire "join" "b" 300 lease_ttl_ms ∷ release "join" ∷ []

granted : (try_acquire_lease browser (some broken) "pay" "a" 100 lease_ttl_ms).0 ≡ true
unfolding try_acquire_lease
granted = refl

expired : (try_acquire_lease browser (some holding) "pay" "b" 60100 lease_ttl_ms).0 ≡ true
unfolding try_acquire_lease
expired = refl

refused_at_the_end :
    (try_acquire_lease browser (some holding) "pay" "b" 60099 lease_ttl_ms).0 ≡ false
unfolding try_acquire_lease
refused_at_the_end = refl

own : is_lease_held_by_other browser (some holding) "pay" "a" 200 ≡ false
unfolding is_lease_held_by_other
own = refl

released :
    is_lease_held_by_other browser (release_lease browser (some holding) "pay") "pay" "b" 200
    ≡ false
unfolding is_lease_held_by_other release_lease
released = refl

try_acquire_lease_excludes_example :
    (try_acquire_lease browser (some nothing) "pay" "a" 100 lease_ttl_ms ≡ (true, some holding))
    × (try_acquire_lease browser
          (some (run_steps browser holding others))
          "pay"
          "b"
          500
          lease_ttl_ms
        ≡ (false, some (run_steps browser holding others)))
    × (is_lease_held_by_other browser (some (run_steps browser holding others)) "pay" "b" 500
        ≡ true)
unfolding read_lease
try_acquire_lease_excludes_example =
    try_acquire_lease_excludes browser nothing holding "pay" "a" "b" 100 lease_ttl_ms 500
      lease_ttl_ms others refl refl (ground arith, (ground arith, (refl, tt))) (ground arith)
