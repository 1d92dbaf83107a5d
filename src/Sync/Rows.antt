-- ===== src/Sync/Rows.antt =====
-- The loop that the five `sync` functions of cmd/sync/main.go share: for each row of the register a
-- look-up in the cluster, and a creation or an update. `W` is the state of the cluster, `S` the
-- specification of one kind of resource.
pub mod Converges
use maintainer_d.Base.{
  Text, text, Bool, true, false, Option, none, some, List, [], ◌∷◌, ◌++◌, if◌then◌else◌,
}

-- The answer of `Get`.
pub data Got (S : Type 0) : Type 0 where
  got : S → Got S
  absent : Got S
  broken : Text → Got S

-- The client's methods on one kind of resource in one namespace.
pub record Objects (W S : Type 0) : Type 0 where
  pub get : Text → W → Got S × W
  pub create : Text → S → W → Option Text × W
  pub update : Text → S → W → Option Text × W

module _ {W S : Type 0} (c : Objects W S) (kind : Text) (equal : S → S → Bool) where
  -- fmt.Errorf("create company %s: %w", name, err)
  abbrev wrapped : Text → Text → Option Text × W → Option Text × W
  wrapped verb name (none, w) = (none, w)
  wrapped verb name (some e, w) = (some (verb ++ kind ++ text " " ++ name ++ text ": " ++ e), w)

  -- The body of the loop after `Get`.
  unfoldable pub after_got : Text → S → Got S × W → Option Text × W
  after_got name spec (absent, w) = wrapped (text "create ") name (c.create name spec w)
  after_got name spec (broken e, w) = (some e, w)
  after_got name spec (got old, w) =
      if equal old spec then (none, w) else wrapped (text "update ") name (c.update name spec w)

  unfoldable pub sync_row : Text → S → W → Option Text × W
  unfolding after_got
  sync_row name spec w = after_got name spec (c.get name w)

  abbrev pub or_stop : (W → Option Text × W) → Option Text × W → Option Text × W
  or_stop next (some e, w) = (some e, w)
  or_stop next (none, w) = next w

  -- The loop stops at the first error.
  unfoldable pub sync_rows : List (Text × S) → W → Option Text × W
  unfolding sync_row
  sync_rows [] w = (none, w)
  sync_rows ((name, spec) ∷ rows) w = or_stop (λ (w' : W). sync_rows rows w') (sync_row name spec w)
