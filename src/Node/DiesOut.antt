-- ===== src/Node/DiesOut.antt =====
-- The announcements of a new node come to an end.
use p2ptest.Base.{
  ℕ, zero, suc, ◌+◌, ◌≤◌, Str, true, false, if◌then◌else◌, is_empty, Option, none, some, List, [],
  ◌∷◌, ◌++◌, length, length-append, ◌≡◌, refl, arith, ap, Returns, Returns-bind, Bool-cases, inl,
  inr,
}
use p2ptest.Proto.{NodeInfo, NotifyNodeJoinResp}
use p2ptest.Membership.{Service, Runtime, Reply}
use p2ptest.Membership.Leave.{notify_node_join}
use p2ptest.Node.Flood.{
  Message, announced_on, deliver, to_places, flood, AreMembers, IsAbout, knows, unaware,
}
use p2ptest.Node.Told.{IsTold, notify_node_join-IsTold}

abbrev pub AreAbout : Str → List Message → Type 0
AreAbout u [] = Unit
AreAbout u (m ∷ queue) = IsAbout u m.info × AreAbout u queue

-- `k` where something is announced on.
abbrev cost : ℕ → Option NodeInfo → ℕ
cost k none = 0
cost k (some info) = k

-- What a delivery promises: what it announces on is paid for by a service that comes to know the node.
abbrev IsPaid : ℕ → Str → List Service → Option NodeInfo × List Service → Type 0
IsPaid k u services out =
    AreMembers out.1
    × ((info : NodeInfo) → out.0 ≡ some info → IsAbout u info)
    × (cost k out.0 + unaware k u out.1 ≤ unaware k u services)

append-AreAbout :
    (u : Str) (q q' : List Message) → AreAbout u q → AreAbout u q' → AreAbout u (q ++ q')
append-AreAbout u [] q' h h' = h'
append-AreAbout u (m ∷ q) q' h h' = (h.0, append-AreAbout u q q' h.1 h')

to_places-AreAbout :
    (u : Str) (o : Option NodeInfo) (places : List ℕ)
    → ((info : NodeInfo) → o ≡ some info → IsAbout u info)
    → AreAbout u (to_places o places)
to_places-AreAbout u none places h = tt
to_places-AreAbout u (some info) [] h = tt
to_places-AreAbout u (some info) (i ∷ places) h =
    (h info refl, to_places-AreAbout u (some info) places h)

length-to_places :
    (info : NodeInfo) (places : List ℕ) → length (to_places (some info) places) ≡ length places
length-to_places info [] = refl
length-to_places info (i ∷ places) = ap suc (length-to_places info places)

few_to_places :
    (k : ℕ) (o : Option NodeInfo) (places : List ℕ)
    → length places ≤ k
    → length (to_places o places) ≤ cost k o
few_to_places k none places h = omega arith
few_to_places k (some info) places h = omega (arith, length-to_places info places, h)

cost_bounds : (k : ℕ) (o : Option NodeInfo) → cost k o ≤ k
cost_bounds k none = omega arith
cost_bounds k (some info) = omega arith

none-some : {A : Type 0} {a : A} → none ≡ some a → ⊥
none-some e = cc

module _ (u : Str) (named : is_empty u ≡ false) (k : ℕ) where
  told_pays :
      (s : Service) (reply : Reply NotifyNodeJoinResp)
      → IsTold u s reply
      → cost k (announced_on reply.calls) + (if knows u reply.service then 0 else k)
        ≤ (if knows u s then 0 else k)
  unfolding announced_on
  told_pays s reply told = elim (Bool-cases (knows u s)) [
    | inl aware ↦ let after = told.1 aware in rw (after.0, after.1, aware) (omega arith)
    | inr unheard ↦
        let after : knows u reply.service ≡ true = told.2 unheard in
        rw (after, unheard) (omega (arith, cost_bounds k (announced_on reply.calls)))
  ]

  deliver-IsPaid :
      (rt : Runtime) (i : ℕ) (info : NodeInfo) (services : List Service)
      → AreMembers services
      → IsAbout u info
      → Returns (IsPaid k u services) (deliver rt i info services)
  unfolding deliver
  deliver-IsPaid rt i info [] members about = (tt, λ info' e. absurd (none-some e), omega arith)
  deliver-IsPaid rt zero info (s ∷ rest) members about =
      Returns-bind _ _ (notify_node_join rt s (some (record { new_node = some info }))) _
        (notify_node_join-IsTold u named rt s info members.0 about)
        (λ reply told. ((told.0, members.1), told.3, omega (arith, told_pays s reply told)))
  deliver-IsPaid rt (suc i) info (s ∷ rest) members about =
      Returns-bind _ _ (deliver rt i info rest) _ (deliver-IsPaid rt i info rest members.1 about)
        (λ out h. ((members.0, h.0), h.1, omega (arith, h.2)))

  flood_ends :
      (rt : ℕ → Runtime) (places : ℕ → List ℕ)
      → ((turn : ℕ) → length (places turn) ≤ k)
      → (fuel : ℕ) (queue : List Message) (services : List Service) → AreMembers services
      → AreAbout u queue
      → length queue + unaware k u services ≤ fuel
      → Returns (λ out. out.0 ≡ []) (flood rt places fuel queue services)
  unfolding flood
  flood_ends rt places few zero [] services members about h = refl
  flood_ends rt places few zero (m ∷ queue) services members about h = absurd (omega (arith, h))
  flood_ends rt places few (suc fuel) [] services members about h = refl
  flood_ends rt places few (suc fuel) (m ∷ queue) services members about h =
      Returns-bind _ _ (deliver (rt fuel) m.place m.info services) _
        (deliver-IsPaid (rt fuel) m.place m.info services members about.0)
        (λ out paid.
          flood_ends rt places few fuel (queue ++ to_places out.0 (places fuel)) out.1 paid.0
            (append-AreAbout u queue _ about.1 (to_places-AreAbout u out.0 (places fuel) paid.1))
            (omega (
              arith,
              h,
              paid.2,
              length-append queue (to_places out.0 (places fuel)),
              few_to_places k out.0 (places fuel) (few fuel),
            )))

-- Announcements of a node, delivered one after the other to services that know their own nodes,
-- each of whose nodes announces it on to at most `k` others: no delivery panics, and after at most as many
-- deliveries as there are announcements, and `k` more for each service that does not know the node,
-- none is left.
pub flood_terminates :
    (u : Str) (k : ℕ) (rt : ℕ → Runtime) (places : ℕ → List ℕ) (queue : List Message)
    (services : List Service)
    → is_empty u ≡ false
    → ((turn : ℕ) → length (places turn) ≤ k)
    → AreMembers services
    → AreAbout u queue
    → Returns
        (λ out. out.0 ≡ [])
        (flood rt places (length queue + unaware k u services) queue services)
flood_terminates u k rt places queue services named few members about =
    flood_ends u named k rt places few _ queue services members about (omega arith)
