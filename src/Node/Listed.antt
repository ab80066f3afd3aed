-- ===== src/Node/Listed.antt =====
-- What `GetOnlinePeers` of internal/node/node.go lists.
use mathlib.Core.List.{mem-cons, not-mem-nil, Mem-prop}
use mathlib.Core.Logic.Or
use p2ptest.Base.{
  ℕ, Str, lit, str_eq, str_beq, ◌==◌, ◌||◌, Bool, true, false, is_some, Option, none, some, List,
  [], ◌∷◌, length, Mem, ◌≡◌, refl, sym, ap, ◌∙◌, suc, Returns, Returns-bind, Returns-deref,
  Returns-weaken, Returns-both, subst, Option-cases, inl, inr,
}
use p2ptest.Base.Dict.{Visit, IsVisit}
use p2ptest.Proto.{NodeId, NodeInfo}
use p2ptest.Addr.{first_addr}
use p2ptest.Registry
use p2ptest.Registry.{Registry, values, list, get_last_active, get_registered_at}
use p2ptest.Registry.Invariant.{IsValid}
use p2ptest.Registry.ByName.{visited_sound, visited_complete}
use p2ptest.Services.{PeerRow}
use p2ptest.Node.{Node}
use p2ptest.Node.Listing.{peer_map, peer_maps, get_online_peers}

-- Whether a map has a key.
unfoldable pub has_key : PeerRow → Str → Bool
has_key [] key = false
has_key ((k, v) ∷ rest) key = (k == key) || has_key rest key

-- A row that shows when the peer was last active and for how long it is online.
abbrev pub IsTimed : PeerRow → Type 0
IsTimed row = (has_key row (lit "last_active") ≡ true) × (has_key row (lit "online_for") ≡ true)

abbrev pub AreTimed : List PeerRow → Type 0
AreTimed [] = Unit
AreTimed (row ∷ rest) = IsTimed row × AreTimed rest

false-true : false ≡ true → ⊥
false-true e = cc

present : {A : Type 0} (o : Option A) → is_some o ≡ true → (a : A) × (o ≡ some a)
present none h = absurd (false-true h)
present (some a) h = (a, refl)

peer_map-IsTimed :
    (clock_text : ℕ → Str) (now : ℕ) (n : Node) (p : NodeInfo) (id : NodeId)
    → IsValid n.registry
    → is_some (Registry.get n.registry id.uuid) ≡ true
    → IsTimed (peer_map clock_text now n p id)
unfolding peer_map has_key lit str_beq
peer_map-IsTimed clock_text now n p id v on =
    let active = present (get_last_active n.registry id.uuid) (v.active id.uuid ∙ on) in
    let registered = present (get_registered_at n.registry id.uuid) (v.registered id.uuid ∙ on) in
    elim (Option-cases (first_addr p.addrs)) [
      | inl nowhere ↦ rw (active.1, registered.1, nowhere, peer_map) (refl, refl)
      | inr (a, at) ↦ rw (active.1, registered.1, at, peer_map) (refl, refl)
    ]

-- A row for each of some entries.
abbrev HaveRows : (ℕ → Str) → ℕ → Node → List (Str × NodeInfo) → List PeerRow → Type 0
HaveRows clock_text now n l rows =
    (k : Str) (p : NodeInfo) (id : NodeId)
    → p.id ≡ some id
    → Mem (k, p) l
    → Mem (peer_map clock_text now n p id) rows

same_row :
    (clock_text : ℕ → Str) (now : ℕ) (n : Node) (p q : NodeInfo) (id id' : NodeId)
    → p ≡ q
    → p.id ≡ some id
    → q.id ≡ some id'
    → peer_map clock_text now n p id ≡ peer_map clock_text now n q id'
same_row clock_text now n p q id id' e has has' = cc

module _ (clock_text : ℕ → Str) (now : ℕ) (n : Node) (v : IsValid n.registry) where
  peer_maps-AreTimed :
      (l : List (Str × NodeInfo))
      → ((k : Str) (p : NodeInfo) → Mem (k, p) l → Registry.get n.registry k ≡ some p)
      → Returns
          (λ rows. AreTimed rows × (length rows ≡ length l))
          (peer_maps clock_text now n (values l))
  unfolding peer_maps values
  peer_maps-AreTimed [] from = (tt, refl)
  peer_maps-AreTimed ((k, p) ∷ l) from =
      let e = v.entry k p (from k p (mem-cons.1 (Or.inl refl))) in
      Returns-deref _ _ (e.has_id) (
        Returns-bind _ _ (peer_maps clock_text now n (values l)) _
          (peer_maps-AreTimed l (λ j q m. from j q (mem-cons.1 (Or.inr m))))
          (λ rows h. (
            (
              peer_map-IsTimed clock_text now n p e.id v (
                  subst (λ u. is_some (Registry.get n.registry u) ≡ true) (sym e.same_uuid)
                    (ap is_some (from k p (mem-cons.1 (Or.inl refl))))),
              h.0,
            ),
            ap suc (h.1),
          )))

  peer_maps-HaveRows :
      (l : List (Str × NodeInfo))
      → ((k : Str) (p : NodeInfo) → Mem (k, p) l → Registry.get n.registry k ≡ some p)
      → Returns (HaveRows clock_text now n l) (peer_maps clock_text now n (values l))
  unfolding peer_maps values
  peer_maps-HaveRows [] from = λ k p id has m. absurd (not-mem-nil m)
  peer_maps-HaveRows ((j, q) ∷ l) from =
      let e = v.entry j q (from j q (mem-cons.1 (Or.inl refl))) in
      Returns-deref _ _ (e.has_id) (
        Returns-bind _ _ (peer_maps clock_text now n (values l)) _
          (peer_maps-HaveRows l (λ i p m. from i p (mem-cons.1 (Or.inr m))))
          (λ rows h k p id has m.
            Or.elim Mem-prop (mem-cons.0 m)
              (λ here.
                mem-cons.1 (
                  Or.inl (same_row clock_text now n p q id e.id (ap (λ t. t.1) here) has e.has_id)))
              (λ later. mem-cons.1 (Or.inr (h k p id has later)))))

  pub get_online_peers_lem :
      (visit : Visit (Str × NodeInfo))
      → IsVisit visit
      → Returns
          (λ rows.
            (length rows ≡ length (visit n.registry.online_peers.entries))
            × AreTimed rows
            × ((k : Str) (p : NodeInfo) (id : NodeId)
                → Registry.get n.registry k ≡ some p
                → p.id ≡ some id
                → Mem (peer_map clock_text now n p id) rows))
          (get_online_peers clock_text now visit n)
  unfolding get_online_peers list
  get_online_peers_lem visit once =
      let l : List (Str × NodeInfo) = visit n.registry.online_peers.entries in
      let from = λ (k : Str) (p : NodeInfo) (m : Mem (k, p) l). visited_sound v visit once k p m in
      Returns-weaken _ _ (peer_maps clock_text now n (values l))
        (Returns-both _ _ (peer_maps clock_text now n (values l)) (peer_maps-AreTimed l from)
          (peer_maps-HaveRows l from))
        (λ rows h.
          (h.0.1, h.0.0, λ k p id on has. h.1 k p id has (visited_complete v visit once k p on)))
