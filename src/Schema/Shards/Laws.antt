-- ===== src/Schema/Shards/Laws.antt =====
-- What joined requirements have.
use mathlib.Core.List.{append_assoc, append-nil}
use flatpak_blackbox_tests.Base.{
  String, true, false, not, ◌&&◌, List, [], ◌∷◌, ◌++◌, ◌==◌, all, contains, is_unique, ◌≡◌, refl,
  ap, sym, ◌∙◌, subst, and_true, Bool-cases, inl, inr, eq_refl, eq_iff, map,
}
use flatpak_blackbox_tests.Base.Dict.{Dict, keys, has, lookup}
use flatpak_blackbox_tests.Json.Value.{Value, root, field, ok, >>=-eq-ok, guard-then, ok_injective}
use flatpak_blackbox_tests.Schema.Index.{indexed, indexed_iff, members, IsKeyed}
use flatpak_blackbox_tests.Schema.Behaviors.{item_id}
use flatpak_blackbox_tests.Schema.Groups.{typed_text}
use flatpak_blackbox_tests.Schema.Shards.{
  Files, Joined, read_interface, has_scope, read_requirements, is_include, read_shard, join_shards,
  includes_of, load_requirements,
}

has_scope-append :
    (scope : String) (xs ys : List Value)
    → has_scope scope xs ≡ ok true
    → has_scope scope ys ≡ ok true
    → has_scope scope (xs ++ ys) ≡ ok true
unfolding has_scope
has_scope-append scope [] ys h k = k
has_scope-append scope (x ∷ xs) ys h k =
    let (interface, read, h₁) = >>=-eq-ok (read_interface x) _ h in
    let (rest, others, h₂) = >>=-eq-ok (has_scope scope xs) _ h₁ in
    let (own, all_others) = and_true (interface == scope) rest (ok_injective h₂) in
    rw (read, has_scope-append scope xs ys (rw all_others at others) k) (rw own refl)

fresh_cons :
    (x : String) (seen rest : List String)
    → not (contains x seen) ≡ true
    → ((t : String) → contains t (x ∷ seen) ≡ true → contains t rest ≡ false)
    → (s : String) → contains s seen ≡ true
    → contains s (x ∷ rest) ≡ false
fresh_cons x seen rest new fresh s c = elim (Bool-cases (x == s)) [
  | inl same ↦ absurd (cc (rw ((eq_iff x s).0 same, c) at new))
  | inr other ↦ rw other (fresh s (rw other c))
]

distinct_cons :
    (x : String) (seen rest : List String)
    → ((t : String) → contains t (x ∷ seen) ≡ true → contains t rest ≡ false)
    → is_unique rest ≡ true
    → is_unique (x ∷ rest) ≡ true
distinct_cons x seen rest fresh distinct = rw (fresh x (rw (eq_refl x) refl), distinct) refl

module _ (files : Files) where
  read_shard-has_scope :
      (scope shard : String) (joined : Joined)
      → read_shard files scope shard ≡ ok joined
      → has_scope scope joined.requirements ≡ ok true
  unfolding read_shard
  read_shard-has_scope scope shard joined h =
      let (found, _, h₁) = >>=-eq-ok (read_requirements files shard) _ h in
      let (_, h₂) = guard-then (not (has "includes" found.document)) _ _ h₁ in
      let (own, _, h₃) = >>=-eq-ok (typed_text found.document "scope" (root shard)) _ h₂ in
      let (scoped, read, h₄) = >>=-eq-ok (has_scope scope found.requirements) _ h₃ in
      let (both, h₅) = guard-then (own == scope && scoped) _ _ h₄ in
      subst (λ (j : Joined). has_scope scope j.requirements ≡ ok true) (ok_injective h₅)
        (read ∙ ap ok (and_true (own == scope) scoped both).1)

  -- Of each include in turn, the requirements of the file that it names.
  pub data Shards : List String → List Value → Type 0 where
    nil : Shards [] []
    more :
        {include : String} {includes : List String} {shard : Joined} {rest : List Value}
        → read_requirements files (files.resolve include) ≡ ok shard
        → Shards includes rest
        → Shards (include ∷ includes) (shard.requirements ++ rest)

  read_shard-read :
      (scope shard : String) (joined : Joined)
      → read_shard files scope shard ≡ ok joined
      → read_requirements files shard ≡ ok joined
  unfolding read_shard
  read_shard-read scope shard joined h =
      let (found, read, h₁) = >>=-eq-ok (read_requirements files shard) _ h in
      let (_, h₂) = guard-then (not (has "includes" found.document)) _ _ h₁ in
      let (own, _, h₃) = >>=-eq-ok (typed_text found.document "scope" (root shard)) _ h₂ in
      let (scoped, _, h₄) = >>=-eq-ok (has_scope scope found.requirements) _ h₃ in
      let (_, h₅) = guard-then (own == scope && scoped) _ _ h₄ in read ∙ ap ok (ok_injective h₅)

  -- What a join adds to the requirements, of includes that were all accepted and that name different files.
  record Added (scope : String) (seen : List String) (before joined : Joined)
      (includes : List String) : Type 0 where
    added : List Value
    whole : joined.requirements ≡ before.requirements ++ added
    shards : Shards includes added
    scoped : has_scope scope added ≡ ok true
    accepted : all (is_include files) includes ≡ true
    fresh : (s : String) → contains s seen ≡ true → contains s (map files.resolve includes) ≡ false
    distinct : is_unique (map files.resolve includes) ≡ true

  join_shards-Added :
      (path scope : String) (seen : List String) (before joined : Joined) (includes : List String)
      → join_shards files path scope seen before includes ≡ ok joined
      → Added scope seen before joined includes
  unfolding join_shards has_scope
  join_shards-Added path scope seen before joined [] h = record {
    added = [];
    whole =
        ap (λ (j : Joined). j.requirements) (sym (ok_injective h))
        ∙ sym (append-nil before.requirements);
    shards = nil;
    scoped = refl;
    accepted = refl;
    fresh = λ s c. refl;
    distinct = refl;
  }
  join_shards-Added path scope seen before joined (include ∷ includes) h =
      let (good, h₁) = guard-then (is_include files include) _ _ h in
      let (new, h₂) = guard-then (not (contains (files.resolve include) seen)) _ _ h₁ in
      let (shard, read, h₃) = >>=-eq-ok (read_shard files scope (files.resolve include)) _ h₂ in
      let rest = join_shards-Added path scope (files.resolve include ∷ seen) _ joined includes h₃ in
      record {
        added = shard.requirements ++ rest.added;
        whole = rest.whole ∙ append_assoc before.requirements shard.requirements rest.added;
        shards = more (read_shard-read scope (files.resolve include) shard read) rest.shards;
        scoped =
            has_scope-append scope shard.requirements rest.added
              (read_shard-has_scope scope (files.resolve include) shard read) rest.scoped;
        accepted = rw (good, rest.accepted) refl;
        fresh = fresh_cons (files.resolve include) seen (map files.resolve includes) new rest.fresh;
        distinct =
            distinct_cons (files.resolve include) seen (map files.resolve includes) rest.fresh
              rest.distinct;
      }

  -- Requirements that are loaded stand under identifiers that all differ. They are those of the index and behind them
  -- those of the files that its includes name, in order; the includes are all accepted and name different files, and
  -- the requirements of these files have the scope of the index.
  pub load_requirements-distinct :
      (path : String) (joined : Joined)
      → load_requirements files path ≡ ok joined
      → (index : Joined) × (scope : String) × (includes : List String) × (added : List Value)
        × (known : Dict Value) × (read_requirements files path ≡ ok index)
        × (typed_text index.document "scope" (root path) ≡ ok scope)
        × (includes_of files (lookup "includes" index.document) (field (root path) "includes")
            ≡ ok includes)
        × (joined.requirements ≡ index.requirements ++ added)
        × Shards includes added
        × (has_scope scope added ≡ ok true)
        × (all (is_include files) includes ≡ true)
        × (is_unique (map files.resolve includes) ≡ true)
        × (members item_id "requirement" known ≡ joined.requirements)
        × IsKeyed item_id "requirement" known
        × (is_unique (keys known) ≡ true)
  unfolding load_requirements
  load_requirements-distinct path joined h =
      let (index, read, h₁) = >>=-eq-ok (read_requirements files path) _ h in
      let (scope, scoped, h₂) = >>=-eq-ok (typed_text index.document "scope" (root path)) _ h₁ in
      let (includes, listed, h₃) =
        >>=-eq-ok
          (includes_of files (lookup "includes" index.document) (field (root path) "includes")) _
          h₂ in
      let (found, shards, h₄) = >>=-eq-ok (join_shards files path scope [] index includes) _ h₃ in
      let (known, i, h₅) = >>=-eq-ok (indexed item_id "requirement" found.requirements) _ h₄ in
      let whole = join_shards-Added path scope [] index found includes shards in
      let (same, keyed, unique) =
        (indexed_iff item_id "requirement" found.requirements known).0 i in
      let joined_is = ap (λ (j : Joined). j.requirements) (ok_injective h₅) in
      (
        index,
        scope,
        includes,
        whole.added,
        known,
        read,
        scoped,
        listed,
        sym joined_is ∙ whole.whole,
        whole.shards,
        whole.scoped,
        whole.accepted,
        whole.distinct,
        same ∙ joined_is,
        keyed,
        unique,
      )
