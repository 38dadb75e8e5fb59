-- ===== src/Core/Dispatcher/Route.antt =====
-- default.go: routedDispatch, and Dispatch and DispatchLink as a whole. `get_handler` and
-- `default_handler` are xray's outbound manager, `tag` the tag of a handler.
pub mod Chosen
pub mod Reaches
pub mod Safe
use ccaa.Base.{
  ℕ, ℤ, String, string_eq, nat_eq, Bool, true, false, List, [], ◌∷◌, ◌++◌, Option, none, some, load,
  str_append, ◌==◌, if◌then◌else◌,
}
use ccaa.Limiter.Registry.{get_limiter}
use ccaa.Core.Sing.{blocked}
use ccaa.Core.Dispatcher.{
  Dispatcher, Link, Reader, Effect, interrupt, close_writer, can_use_same_tag_outbound,
  cached_reader,
}
use ccaa.Core.Dispatcher.Links.{SessionInbound, Links, get_link, enter_link}
use ccaa.Core.Dispatcher.Override.{SniffResult, SniffingRequest, Target, retarget}

-- What the router answers: there is none, it has no route, or the tag of an outbound.
pub data Picked : Type 0 where
  no_router no_route : Picked
  route_to : String → Picked

pub record RoutingContext : Type 0 where
  pub inbound_tag : String
  pub forced_outbound_tag : String
  pub picked : Picked

-- `isPickRoute`: 0, 1 and 2.
pub data PickedBy : Type 0 where
  by_default by_platform by_router : PickedBy

-- The call fails before a link is routed; the link is dropped; it is handed to a handler, with the
-- text for the access log; or the code panics, as at a context without an inbound.
pub data Outcome (H B : Type 0) : Type 0 where
  panics fails dropped : Outcome H B
  handed : H → String → Link B → Outcome H B

abbrev pub detour : PickedBy → String → String → String
detour by in_tag tag = if tag == "" then "" else if in_tag == "" then tag else elim by [
  | by_default ↦ str_append in_tag (str_append " >> " tag)
  | by_platform ↦ str_append in_tag (str_append " ==> " tag)
  | by_router ↦ str_append in_tag (str_append " -> " tag)
]

module _ {R B : Type 0} where
  -- The limiter whose rules the destination is held against, where there is a user.
  abbrev pub rule_limiter : SessionInbound → Option ℕ → Dispatcher R B → Option ℕ
  rule_limiter s l d = elim s.email [
    | none ↦ none
    | some e ↦ elim l [ none ↦ get_limiter s.tag d.registry | some r ↦ some r ]
  ]

  -- What is closed and interrupted when a link is dropped.
  abbrev pub drop_link :
      {H : Type 0} → Link B → Dispatcher R B → Dispatcher R B × List Effect × Outcome H B
  drop_link link d =
      let (d', out) = close_writer link.writer d in (d', out ++ interrupt link.reader, dropped)

  -- The rules of the limiter, if there is one.
  unfoldable pub against_rules :
      (R → String → Bool) → String → String → Option ℕ → Dispatcher R B → Bool
  against_rules match_string destination protocol none d = false
  against_rules match_string destination protocol (some r) d = elim (load r d.registry.heap) [
    | none ↦ false
    | some l ↦ blocked match_string destination protocol l
  ]

module _ {H : Type 0} (get_handler : String → Option H) where
  abbrev pub named : PickedBy → String → Option (PickedBy × H)
  named by name = elim (get_handler name) [ none ↦ none | some h ↦ some (by, h) ]

  -- The handler where neither the platform nor the router names one.
  unfoldable pub fall_back : Option H → Bool → String → Option (PickedBy × H)
  fall_back default_handler same_tag in_tag =
      let by_tag = if same_tag then get_handler in_tag else none in
      elim by_tag [
        | some h ↦ some (by_default, h)
        | none ↦ elim default_handler [ none ↦ none | some h ↦ some (by_default, h) ]
      ]

  -- A tag that is named has to exist: the default does not take its place.
  unfoldable pub choose_handler : Option H → Bool → RoutingContext → Option (PickedBy × H)
  choose_handler default_handler same_tag c =
      if c.forced_outbound_tag == ""
      then elim c.picked [
        | no_router ↦ fall_back default_handler same_tag c.inbound_tag
        | no_route ↦ fall_back default_handler same_tag c.inbound_tag
        | route_to out_tag ↦ named by_router out_tag
      ]
      else named by_platform c.forced_outbound_tag

-- What a caller asks for: whether the destination is valid, and its address as a text; the protocol
-- that the session's content has; what the sniffers find, where they are asked; whether the fake DNS
-- has the address; the tags; and what the router picks for the targets.
pub record Request : Type 0 where
  pub inbound : Option SessionInbound
  pub is_tcp : Bool
  pub is_valid : Bool
  pub destination : String
  pub protocol : String
  pub sniffing : SniffingRequest
  pub sniffed : Option SniffResult
  pub in_pool : Bool
  pub inbound_tag : String
  pub forced_outbound_tag : String
  pub pick_route : Target → Picked

-- The protocol that the rules see, the reader that is routed, and what the routing looks at.
abbrev pub routed_protocol : Request → String
routed_protocol q =
    if q.sniffing.enabled then elim q.sniffed [ none ↦ q.protocol | some r ↦ r.protocol ] else ""

abbrev pub sniffed_reader : Request → Reader → Reader
sniffed_reader q x = if q.sniffing.enabled then cached_reader x else x

abbrev pub routing_context : Request → Target → RoutingContext
routing_context q t = record {
  inbound_tag = q.inbound_tag;
  forced_outbound_tag = q.forced_outbound_tag;
  picked = q.pick_route t;
}

-- The targets once the sniffers have been asked, if they are.
abbrev pub target_of :
    {R : Type 0}
    → (String → String)
    → (String → Option R)
    → (R → String → Bool)
    → (String → String)
    → Request
    → Target
target_of to_lower compile match_string parse_address q =
    retarget to_lower compile match_string parse_address q.in_pool q.sniffing
      (if q.sniffing.enabled then q.sniffed else none) q.destination

module _ {R B H : Type 0} (match_string : R → String → Bool) (get_handler : String → Option H)
    (default_handler : Option H) (tag : H → String) where
  unfoldable pub routed_dispatch :
      Option SessionInbound
      → RoutingContext
      → String
      → String
      → Option ℕ
      → Link B
      → Dispatcher R B
      → Dispatcher R B × List Effect × Outcome H B
  routed_dispatch none c destination protocol l link d = (d, [], panics)
  routed_dispatch (some s) c destination protocol l link d =
      if against_rules match_string destination protocol (rule_limiter s l d) d
      then drop_link link d
      else let same_tag = can_use_same_tag_outbound c.inbound_tag d in
        elim (choose_handler get_handler default_handler same_tag c) [
          | none ↦ drop_link link d
          | some (by, h) ↦ (d, [], handed h (detour by c.inbound_tag (tag h)) link)
        ]

  module _ (to_lower : String → String) (compile : String → Option R)
      (parse_address : String → String) where
    -- What follows once the link is there: the sniffers, if they are asked, and the routing.
    unfoldable pub sniff_and_route :
        Request → Option ℕ → Link B → Dispatcher R B → Dispatcher R B × List Effect × Outcome H B
    sniff_and_route q l link d =
        let t = target_of to_lower compile match_string parse_address q in
        routed_dispatch q.inbound (routing_context q t) t.destination (routed_protocol q) l
          (record link { reader = sniffed_reader q link.reader }) d

    -- What follows once the link is made or entered: an error ends the call.
    unfoldable pub after_get :
        Request
        → Dispatcher R B × List Effect × Option (Links B)
        → Dispatcher R B × List Effect × Option (Link B) × Outcome H B
    after_get q (d, out, none) = (d, out, none, fails)
    after_get q (d, out, some (inbound, outbound, l)) =
        let (d', out', outcome) = sniff_and_route q l outbound d in
        (d', out ++ out', some inbound, outcome)

    unfoldable pub after_enter :
        Request
        → Dispatcher R B × List Effect × Option (Link B × Option ℕ)
        → Dispatcher R B × List Effect × Outcome H B
    after_enter q (d, out, none) = (d, out, fails)
    after_enter q (d, out, some (link, l)) =
        let (d', out', outcome) = sniff_and_route q l link d in (d', out ++ out', outcome)

    -- The inbound's link, if there is one, and what becomes of the outbound one.
    unfoldable pub dispatch :
        (ℤ → ℤ → B)
        → ℤ
        → Request
        → ℕ
        → ℕ
        → Dispatcher R B
        → Dispatcher R B × List Effect × Option (Link B) × Outcome H B
    dispatch new_bucket now q up_pipe down_pipe d =
        if q.is_valid
        then after_get q (get_link new_bucket now q.inbound q.is_tcp up_pipe down_pipe d)
        else (d, [], none, panics)

    unfoldable pub dispatch_link :
        (ℤ → ℤ → B)
        → ℤ
        → Request
        → Link B
        → Dispatcher R B
        → Dispatcher R B × List Effect × Outcome H B
    dispatch_link new_bucket now q outbound d =
        if q.is_valid
        then after_enter q (enter_link new_bucket now q.inbound q.is_tcp outbound d)
        else (d, [], fails)
