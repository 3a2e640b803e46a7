-- ===== src/Matching/Fresh.antt =====
-- The matches that cmd/chantools/zombierecovery_findmatches.go finds.
use chantools.Prelude.{
  List, [], ◌∷◌, ◌++◌, Bool, true, false, not, ◌||◌, some, Result, ok, wrap, ◌≡◌, ◌≢◌, refl, sym,
  ◌∙◌, ap, subst, >>=-eq-ok, ok-injective, Bool-cases, inl, inr, All, All-append, arith,
}
use chantools.Prelude.Text.{Text, text_eq, text_eq_sound, text_eq_refl}
use chantools.Prelude.Text.Decimal.{parse_uint}
use chantools.Explorer.{Api, address}
use chantools.Offer.Files.{Channel, MatchFile}
use chantools.Matching.{
  GqChannel, MatchingError, address_failed, bad_capacity, identify_peer, Matches, is_pair,
  has_match, new_match, ensure_match, add_channel, matching_try, match_channel, match_peers,
  match_channels, match_nodes, find_matches,
}

-- A match of two different nodes, with nothing filled in.
pub record IsFresh (e : Text × Text × MatchFile) : Type 0 where
  pub distinct : e.0 ≢ e.1
  pub contact1 : Text
  pub contact2 : Text
  pub node1_kept :
      e.2.node1
      ≡ some (record { pub_key = e.0; contact = contact1; payout_addr = []; multisig_keys = [] })
  pub node2_kept :
      e.2.node2
      ≡ some (record { pub_key = e.1; contact = contact2; payout_addr = []; multisig_keys = [] })

-- No two nodes are matched in both orders.
abbrev pub OneWay : Matches → Type 0
OneWay ms = (a b : Text) → has_match a b ms ≡ true → has_match b a ms ≡ false

-- What holds of the map at every step.
pub record Good (ms : Matches) : Type 0 where
  pub fresh : All IsFresh ms
  pub one_way : OneWay ms

is_pair_sound : (a b c d : Text) → is_pair a b c d ≡ true → (a ≡ c) × (b ≡ d)
is_pair_sound a b c d h = elim (Bool-cases (text_eq a c)) [
  | inl e ↦ elim (Bool-cases (text_eq b d)) [
    | inl f ↦ (text_eq_sound a c e, text_eq_sound b d f)
    | inr f ↦ absurd (refused (rw (e, f) at h))
  ]
  | inr e ↦ absurd (refused (rw e at h))
]
  where
    refused : false ≡ true → ⊥
    refused p = cc

has_match-append :
    (a b c d : Text) (m : MatchFile) (ms : Matches)
    → has_match a b (ms ++ (c, d, m) ∷ []) ≡ (has_match a b ms || is_pair c d a b)
unfolding has_match
has_match-append a b c d m [] = ground arith
has_match-append a b c d m ((x, y, n) ∷ ms) = elim (Bool-cases (is_pair x y a b)) [
  | inl e ↦ rw e refl
  | inr e ↦ rw e (has_match-append a b c d m ms)
]

has_match-add_channel :
    (a b c d : Text) (ch : Channel) (ms : Matches)
    → has_match a b (add_channel c d ch ms) ≡ has_match a b ms
unfolding has_match add_channel
has_match-add_channel a b c d ch [] = refl
has_match-add_channel a b c d ch ((x, y, n) ∷ ms) = elim (Bool-cases (is_pair x y c d)) [
  | inl e ↦ rw e refl
  | inr e ↦ rw e (ap (λ t. is_pair x y a b || t) (has_match-add_channel a b c d ch ms))
]

module _ (c d : Text) (distinct : text_eq c d ≡ false) where
  differ : c ≢ d
  differ e = refused (sym distinct ∙ subst (λ x. text_eq c x ≡ true) e (text_eq_refl c))
    where
      refused : false ≡ true → ⊥
      refused p = cc

  append-OneWay :
      (m : MatchFile) (ms : Matches)
      → has_match d c ms ≡ false
      → OneWay ms
      → OneWay (ms ++ (c, d, m) ∷ [])
  append-OneWay m ms free way a b h =
      rw (has_match-append b a c d m ms) (elim (Bool-cases (is_pair c d a b)) [
        | inl here ↦
            let (e, f) = is_pair_sound c d a b here in
            subst (λ x. (has_match b x ms || is_pair c d b x) ≡ false) e
              (subst (λ x. (has_match x c ms || is_pair c d x c) ≡ false) f
                (rw (free, distinct) refl))
        | inr other ↦
            let old : has_match a b ms ≡ true =
              before (has_match a b ms) refl (rw (has_match-append a b c d m ms, other) at h) in
            rw (way a b old) (elim (Bool-cases (is_pair c d b a)) [
              | inl back ↦
                  let (e, f) = is_pair_sound c d b a back in
                  absurd (
                    refused (
                      sym free
                      ∙ subst (λ x. has_match x c ms ≡ true) (sym f)
                          (subst (λ x. has_match a x ms ≡ true) (sym e) old)))
              | inr clear ↦ clear
            ])
      ])
    where
      refused : false ≡ true → ⊥
      refused p = cc

      before : (t : Bool) → has_match a b ms ≡ t → (t || false) ≡ true → has_match a b ms ≡ true
      before true e h = e
      before false e h = absurd (refused h)

  add_channel-IsFresh :
      (ch : Channel) (ms : Matches) → All IsFresh ms → All IsFresh (add_channel c d ch ms)
  unfolding add_channel
  add_channel-IsFresh ch [] all = tt
  add_channel-IsFresh ch ((x, y, n) ∷ ms) (p, all) = elim (Bool-cases (is_pair x y c d)) [
    | inl e ↦ rw e (
      record {
        distinct = p.distinct;
        contact1 = p.contact1;
        contact2 = p.contact2;
        node1_kept = p.node1_kept;
        node2_kept = p.node2_kept;
      },
      all,
    )
    | inr e ↦ rw e (p, add_channel-IsFresh ch ms all)
  ]

  ensure_match-Good :
      (contact1 contact2 : Text) (ms : Matches)
      → has_match d c ms ≡ false
      → Good ms
      → Good (ensure_match c contact1 d contact2 ms)
  unfolding ensure_match
  ensure_match-Good contact1 contact2 ms free g = elim (Bool-cases (has_match c d ms)) [
    | inl there ↦ rw there g
    | inr absent ↦ rw absent (record {
      fresh = All-append IsFresh ms _ g.fresh (
        record {
          distinct = differ;
          contact1 = contact1;
          contact2 = contact2;
          node1_kept = refl;
          node2_kept = refl;
        },
        tt,
      );
      one_way = append-OneWay (new_match c contact1 d contact2) ms free g.one_way;
    })
  ]

  add_channel-Good : (ch : Channel) (ms : Matches) → Good ms → Good (add_channel c d ch ms)
  add_channel-Good ch ms g = record {
    fresh = add_channel-IsFresh ch ms g.fresh;
    one_way = λ a b h.
        has_match-add_channel b a c d ch ms
        ∙ g.one_way a b (sym (has_match-add_channel a b c d ch ms) ∙ h);
  }

module _ (api : Api) where
  match_channel-Good :
      (node1 contact1 node2 contact2 : Text) (channel : GqChannel) (ms ms' : Matches)
      → text_eq node1 node2 ≡ false
      → has_match node2 node1 ms ≡ false
      → Good ms
      → match_channel api node1 contact1 node2 contact2 channel ms ≡ ok ms'
      → Good ms'
  unfolding match_channel
  match_channel-Good node1 contact1 node2 contact2 channel ms ms' distinct free g h =
      let (addr, _, r1) = >>=-eq-ok (wrap address_failed (address api channel.chan_point)) _ h in
      let (capacity, _, r2) =
        >>=-eq-ok (matching_try (parse_uint 64 channel.capacity) bad_capacity) _ r1 in
      subst Good (ok-injective r2) (
        add_channel-Good node1 node2 distinct _ (ensure_match node1 contact1 node2 contact2 ms)
          (ensure_match-Good node1 node2 distinct contact1 contact2 ms free g))

  match_peers-Good :
      (node1 contact1 peer : Text) (channel : GqChannel) (registrations : List (Text × Text))
      (ms ms' : Matches)
      → Good ms
      → match_peers api node1 contact1 peer channel registrations ms ≡ ok ms'
      → Good ms'
  unfolding match_peers
  match_peers-Good node1 contact1 peer channel [] ms ms' g h = subst Good (ok-injective h) g
  match_peers-Good node1 contact1 peer channel ((node2, contact2) ∷ registrations) ms ms' g h =
      elim (Bool-cases
        ((text_eq node1 node2 || not (text_eq node2 peer)) || has_match node2 node1 ms)) [
          | inl skipped ↦
              match_peers-Good node1 contact1 peer channel registrations ms ms' g (rw skipped at h)
          | inr taken ↦
              let (next, e, r) =
                >>=-eq-ok (match_channel api node1 contact1 node2 contact2 channel ms) _
                  (rw taken at h) in
              let (distinct, free) =
                passed (text_eq node1 node2) (not (text_eq node2 peer)) (has_match node2 node1 ms)
                  taken in
              match_peers-Good node1 contact1 peer channel registrations next ms'
                (match_channel-Good node1 contact1 node2 contact2 channel ms next distinct free g e)
                r
        ]
    where
      passed : (p q r : Bool) → ((p || q) || r) ≡ false → (p ≡ false) × (r ≡ false)
      passed p q r h = ground arith

  match_channels-Good :
      (node1 contact1 : Text) (registrations : List (Text × Text)) (channels : List GqChannel)
      (ms ms' : Matches)
      → Good ms
      → match_channels api node1 contact1 registrations channels ms ≡ ok ms'
      → Good ms'
  unfolding match_channels
  match_channels-Good node1 contact1 registrations [] ms ms' g h = subst Good (ok-injective h) g
  match_channels-Good node1 contact1 registrations (channel ∷ channels) ms ms' g h =
      let (peer, _, r1) = >>=-eq-ok (identify_peer channel node1) _ h in
      let (next, e, r2) =
        >>=-eq-ok (match_peers api node1 contact1 peer channel registrations ms) _ r1 in
      match_channels-Good node1 contact1 registrations channels next ms'
        (match_peers-Good node1 contact1 peer channel registrations ms next g e) r2

  match_nodes-Good :
      (fetch : Text → Result MatchingError (List GqChannel))
      (registrations nodes : List (Text × Text)) (ms ms' : Matches)
      → Good ms
      → match_nodes api fetch registrations nodes ms ≡ ok ms'
      → Good ms'
  unfolding match_nodes
  match_nodes-Good fetch registrations [] ms ms' g h = subst Good (ok-injective h) g
  match_nodes-Good fetch registrations ((node1, contact1) ∷ nodes) ms ms' g h =
      let (channels, _, r1) = >>=-eq-ok (fetch node1) _ h in
      let (next, e, r2) =
        >>=-eq-ok (match_channels api node1 contact1 registrations channels ms) _ r1 in
      match_nodes-Good fetch registrations nodes next ms'
        (match_channels-Good node1 contact1 registrations channels ms next g e) r2

  -- Whatever the server answers and in whatever order the nodes are visited: each match that is found is one of
  -- two different nodes, whose slots hold their key and nothing filled in, and no two nodes are matched in
  -- both orders.
  pub find_matches-Good :
      (fetch : Text → Result MatchingError (List GqChannel)) (registrations : List (Text × Text))
      (ms : Matches)
      → find_matches api fetch registrations ≡ ok ms
      → Good ms
  unfolding find_matches
  find_matches-Good fetch registrations ms h =
      match_nodes-Good fetch registrations registrations [] ms
        (record { fresh = tt; one_way = unmatched }) h
    where
      unmatched : OneWay []
      unmatched a b h = unfold has_match in refl
