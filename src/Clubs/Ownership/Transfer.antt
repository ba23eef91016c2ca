-- ===== src/Clubs/Ownership/Transfer.antt =====
-- The owners of clubs across a transfer.
use community_platform.Base.{
  ℕ, ◌+◌, ◌≤◌, ◌≡◌, refl, sym, ◌∙◌, ap, subst, Bool, true, false, some, List, [], ◌∷◌, find?, count,
  indicator, map_option, ◌==◌, arith, Bool-cases, inl, inr, Distinct, Distinct-update_where,
  count-update_where, find?-update_where, some_injective, find?-key, if◌then◌else◌, find?-holds,
}
use community_platform.Authorization.{ClubRole}
use community_platform.Clubs.{Club, Membership, Tables}
use community_platform.Clubs.Repository.{is_owner}
use community_platform.Clubs.Repository.Roles.{is_owner_row, is_not_owner}
use community_platform.Clubs.Steps.{HandedOver, without_owner}
use community_platform.Clubs.Ownership.{owns, owned_by, Owned}

-- The owners of a club who are one user, and those who are another, are at most all of them.
count_apart :
    (k u v : ℕ) (ms : List Membership)
    → (u == v) ≡ false
    → count (owned_by k u) ms + count (owned_by k v) ms ≤ count (owns k) ms
count_apart k u v [] h = omega arith
count_apart k u v (m ∷ ms) h = ground (arith, count_apart k u v ms h)

module _ (c : Club) (a b : Membership) (db db' : Tables) (t : HandedOver c a b db db')
    (d : Distinct (λ m. m.id) db.memberships) where
  abbrev pub demoted : List Membership
  demoted = without_owner a.id db.memberships

  abbrev old_row : Membership
  old_row = record a { role = ClubRole.member }

  abbrev new_row : Membership
  new_row = record b { role = ClubRole.owner }

  pub demoted-Distinct : Distinct (λ m. m.id) demoted
  demoted-Distinct =
      Distinct-update_where (λ m. m.id) (is_owner_row a.id)
        (λ x. record x { role = ClubRole.member }) db.memberships (λ x. refl) d

  other_row : (b.id == a.id) ≡ false
  other_row = elim (Bool-cases (b.id == a.id)) [
    | inr e ↦ e
    | inl e ↦
        let same : b.id ≡ a.id = ground arith in
        let one : b ≡ a = some_injective (
          sym (subst (λ k. find? (λ x. x.id == k) db.memberships ≡ some b) same t.new_found)
          ∙ t.old_found) in
        ground (arith, t.new_user, ap (λ m. m.user_id) one)
  ]

  pub demoted_found : find? (λ x. x.id == b.id) demoted ≡ some b
  demoted_found =
      find?-update_where (λ x. x.id == b.id) (is_owner_row a.id)
        (λ x. record x { role = ClubRole.member }) db.memberships (λ x. refl)
      ∙ ap
          (map_option (λ x. if is_owner_row a.id x then record x { role = ClubRole.member } else x))
          t.new_found
      ∙ ground (arith, other_row)

  promoted_row : is_not_owner b.id b ≡ true
  promoted_row =
      let (x, found) = t.promoted in
      let holds = find?-holds (is_not_owner b.id) demoted x found in
      let same_id : x.id ≡ b.id = ground (arith, holds) in
      let by_id = find?-key (λ m. m.id) (is_not_owner b.id) x demoted demoted-Distinct found in
      let same : x ≡ b = some_injective (
        sym (subst (λ k. find? (λ y. y.id == k) demoted ≡ some x) same_id by_id) ∙ demoted_found) in
      subst (λ y. is_not_owner b.id y ≡ true) same holds

  -- A count changes by what the two memberships change by.
  pub HandedOver-count :
      (q : Membership → Bool)
      → count q db'.memberships + indicator (q b) + indicator (q a)
        ≡ count q db.memberships + indicator (q old_row) + indicator (q new_row)
  HandedOver-count q =
      let first =
        count-update_where (λ m. m.id) a.id (is_owner_row a.id) q
          (λ x. record x { role = ClubRole.member }) a db.memberships d t.old_found
          (λ x e. ground arith) (ground (arith, t.old_role)) in
      let second =
        count-update_where (λ m. m.id) b.id (is_not_owner b.id) q
          (λ x. record x { role = ClubRole.owner }) b demoted demoted-Distinct demoted_found
          (λ x e. ground arith) promoted_row in
      rw t.memberships (omega (arith, first, second))

  pub HandedOver-Distinct : Distinct (λ m. m.id) db'.memberships
  HandedOver-Distinct = rw t.memberships (
      Distinct-update_where (λ m. m.id) (is_not_owner b.id)
        (λ x. record x { role = ClubRole.owner }) demoted (λ x. refl) demoted-Distinct)

  -- A test that only members of one club pass.
  elsewhere :
      (k : ℕ) (q : Membership → Bool)
      → (k == c.id) ≡ false
      → ((m : Membership) → (m.club_id == k) ≡ false → q m ≡ false)
      → count q db'.memberships ≡ count q db.memberships
  elsewhere k q n o =
      let old_club : (a.club_id == k) ≡ false = ground (arith, t.old_club) in
      let new_club : (b.club_id == k) ≡ false = ground (arith, t.new_club) in
      ground (
        arith,
        HandedOver-count q,
        o a old_club,
        o b new_club,
        o old_row old_club,
        o new_row new_club,
      )

  -- Another club keeps its owner.
  pub HandedOver-Owned_other :
      (x : Club) → (x.id == c.id) ≡ false → Owned x db.memberships → Owned x db'.memberships
  HandedOver-Owned_other x n o = record {
    one_owner = elsewhere x.id (owns x.id) n (λ m e. ground arith) ∙ o.one_owner;
    named = elsewhere x.id (owned_by x.id x.owner_user_id) n (λ m e. ground arith) ∙ o.named;
  }

  -- The club itself has its new owner.
  pub HandedOver-Owned_self :
      (x : Club)
      → x.id ≡ c.id
      → x.owner_user_id ≡ b.user_id
      → Owned c db.memberships
      → Owned x db'.memberships
  HandedOver-Owned_self x same owner o =
      let apart =
        count_apart c.id c.owner_user_id b.user_id db.memberships
          (ground (arith, t.new_user, t.old_user)) in
      let all = HandedOver-count (owns c.id) in
      let mine = HandedOver-count (owned_by c.id b.user_id) in
      let old : owns c.id a ≡ true = ground (arith, t.old_club, t.old_role) in
      let new : is_owner b.role ≡ false = ground (arith, promoted_row) in
      let new_club : b.club_id ≡ c.id = t.new_club in
      let old_user : (a.user_id == b.user_id) ≡ false = ground (arith, t.new_user) in
      let one : count (owns c.id) db'.memberships ≡ 1 = ground (arith, all, o.one_owner) in
      let name : count (owned_by c.id b.user_id) db'.memberships ≡ 1 =
        ground (arith, mine, apart, o.one_owner, o.named) in
      record { one_owner = rw same one; named = rw same (rw owner name) }
