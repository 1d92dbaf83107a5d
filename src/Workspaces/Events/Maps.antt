-- ===== src/Workspaces/Events/Maps.antt =====
-- Maps that agree on their keys, for the event filter of staffmember_controller.go.
use maintainer_d.Base.{
  suc, Text, ◌==◌, eq_iff, eq_refl, ◌≡◌, ◌≤◌, refl, none, some, [], ◌∷◌, length, All, arith,
  if-Splits,
}
use maintainer_d.Base.Dict
use maintainer_d.Base.Dict.{Dict}

-- Each key stands once, as in a Go map.
abbrev pub IsMap : Dict Text → Type 0
IsMap [] = Unit
IsMap ((k, v) ∷ m) = (Dict.get k m ≡ none) × IsMap m

-- No value of the first map is missing in the second or another there.
abbrev pub AgreesOn : Dict Text → Dict Text → Type 0
AgreesOn new old = All (λ (k, v). Dict.get k new ≡ some v) old

pub AgreesOn-cons :
    (k v : Text) (new old : Dict Text)
    → Dict.get k old ≡ none
    → AgreesOn new old
    → AgreesOn ((k, v) ∷ new) old
unfolding Dict.get
AgreesOn-cons k v new [] missing h = tt
AgreesOn-cons k v new ((j, w) ∷ old) missing (here, rest) = (
  ground (arith, eq_iff j k, eq_iff k j),
  AgreesOn-cons k v new old (ground (arith, eq_iff j k)) rest,
)

pub AgreesOn-refl : (m : Dict Text) → IsMap m → AgreesOn m m
unfolding Dict.get
AgreesOn-refl [] h = tt
AgreesOn-refl ((k, v) ∷ m) (new, rest) =
    (rw (eq_refl k), AgreesOn-cons k v m m new (AgreesOn-refl m rest))

remove-IsMap : (k : Text) (m : Dict Text) → IsMap m → IsMap (Dict.remove k m)
unfolding Dict.remove
remove-IsMap k [] h = tt
remove-IsMap k ((j, w) ∷ m) (new, rest) =
    if-Splits IsMap (j == k) (Dict.remove k m) ((j, w) ∷ Dict.remove k m)
      (λ _. remove-IsMap k m rest)
      (λ other. (ground (arith, Dict.get-remove k j m), remove-IsMap k m rest))

remove-missing : (k : Text) (m : Dict Text) → Dict.get k m ≡ none → Dict.remove k m ≡ m
unfolding Dict.remove Dict.get
remove-missing k [] h = refl
remove-missing k ((j, w) ∷ m) h = ground (arith, remove-missing k m)

length-remove :
    (k v : Text) (m : Dict Text)
    → IsMap m
    → Dict.get k m ≡ some v
    → length m ≡ suc (length (Dict.remove k m))
unfolding Dict.remove Dict.get
length-remove k v [] h e = cc
length-remove k v ((j, w) ∷ m) (new, rest) e =
    ground (arith, length-remove k v m rest, remove-missing k m, eq_iff j k)

pub AgreesOn-remove :
    (k : Text) (new old : Dict Text)
    → Dict.get k old ≡ none
    → AgreesOn new old
    → AgreesOn (Dict.remove k new) old
unfolding Dict.get
AgreesOn-remove k new [] missing h = tt
AgreesOn-remove k new ((j, w) ∷ old) missing (here, rest) = (
  ground (arith, Dict.get-remove k j new, eq_iff j k, eq_iff k j, eq_refl k),
  AgreesOn-remove k new old (ground (arith)) rest,
)

-- A map that has all of another and as many keys is that map.
pub AgreesOn-eq :
    (old new : Dict Text)
    → IsMap old
    → IsMap new
    → AgreesOn new old
    → length old ≡ length new
    → (k : Text) → Dict.get k old ≡ Dict.get k new
unfolding Dict.get
AgreesOn-eq [] [] u v a e k = refl
AgreesOn-eq [] (x ∷ new) u v a e k = absurd (omega (arith, e))
AgreesOn-eq ((j, w) ∷ old) new (missing, rest) v (here, others) e k = ground (
  arith,
  AgreesOn-eq old (Dict.remove j new) rest (remove-IsMap j new v)
      (AgreesOn-remove j new old missing others) (omega (arith, length-remove j w new v here, e)) k,
  Dict.get-remove j k new,
  eq_iff j k,
  here,
)

pub AgreesOn-length :
    (old new : Dict Text) → IsMap old → IsMap new → AgreesOn new old → length old ≤ length new
AgreesOn-length [] new u v a = omega arith
AgreesOn-length ((j, w) ∷ old) new (missing, rest) v (here, others) = omega (
  arith,
  length-remove j w new v here,
  AgreesOn-length old (Dict.remove j new) rest (remove-IsMap j new v)
      (AgreesOn-remove j new old missing others),
)

pub AgreesOn-get :
    (old new : Dict Text)
    → IsMap old
    → ((k v : Text) → Dict.get k old ≡ some v → Dict.get k new ≡ some v)
    → AgreesOn new old
unfolding Dict.get
AgreesOn-get [] new u h = tt
AgreesOn-get ((j, w) ∷ old) new (missing, rest) h =
    (h j w (rw (eq_refl j)), AgreesOn-get old new rest λ k v e. h k v (ground (arith, eq_iff j k)))
