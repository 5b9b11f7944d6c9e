-- ===== src/Web/Items.antt =====
-- The items of the stores: `Tunnel` and `Entrypoint` of web-src/src/api/types.ts, and which of their
-- fields a poll brings. `V` stands for the values that the stores copy and do not read; `none` is a
-- property that is missing.
use wisper.Prelude.{refl, Bool, not, ◌&&◌, Option, none, some, List, [], ◌∷◌, if◌then◌else◌}
use wisper.Prelude.Text.{Text, codes, text_eq}
use wisper.Web.Store.{Item}

pub record Tunnel (V : Type 0) : Type 0 where
  pub id : Text
  pub name : Text
  pub kind : Text
  pub endpoint : Text
  pub entrypoint : Text
  pub status : Text
  pub favorite : Bool
  pub created_at : Text
  pub error : Text
  pub options : V
  pub stats : V
  pub peer_stats : Option V
  pub lan : Option V
  pub peer_transport : Option Text
  pub share_effective : Option Text
  pub share_downgraded : Option Bool
  pub events : Option V

pub record Entrypoint (V : Type 0) : Type 0 where
  pub id : Text
  pub name : Text
  pub kind : Text
  pub endpoint : Text
  pub entrypoint : Text
  pub status : Text
  pub favorite : Bool
  pub created_at : Text
  pub error : Text
  pub options : V
  pub stats : V
  pub peer_transport : Option Text
  pub peer_rtt_ms : Option V
  pub peer_rtt_live : Option Bool
  pub peer_rto_ms : Option V
  pub peer_rttvar_ms : Option V
  pub peer_kcp_live : Option Bool
  pub lan_routes : Option (List Text)
  pub events : Option V

-- `{ ...t, entrypoint: s.entrypoint, … }` of tunnel-store.ts
unfoldable pub absorb_tunnel : {V : Type 0} → Tunnel V → Tunnel V → Tunnel V
absorb_tunnel s t = record t {
  entrypoint = s.entrypoint;
  stats = s.stats;
  status = s.status;
  error = s.error;
  peer_stats = s.peer_stats;
  lan = s.lan;
}

-- `{ ...e, entrypoint: s.entrypoint, … }` of entrypoint-store.ts
unfoldable pub absorb_entrypoint : {V : Type 0} → Entrypoint V → Entrypoint V → Entrypoint V
absorb_entrypoint s e = record e {
  entrypoint = s.entrypoint;
  stats = s.stats;
  status = s.status;
  error = s.error;
  peer_transport = s.peer_transport;
  peer_rtt_ms = s.peer_rtt_ms;
  peer_rtt_live = s.peer_rtt_live;
  peer_rto_ms = s.peer_rto_ms;
  peer_rttvar_ms = s.peer_rttvar_ms;
  peer_kcp_live = s.peer_kcp_live;
  lan_routes = s.lan_routes;
}

-- The store of tunnels, and the store of entry points.
unfoldable pub tunnel_item : {V : Type 0} → Item (Tunnel V)
unfolding absorb_tunnel
tunnel_item = record {
  id = λ t. t.id;
  favorite = λ t. t.favorite;
  set_favorite = λ b t. record t { favorite = b };
  absorb = absorb_tunnel;
  id-set_favorite = λ b t. refl;
  id-absorb = λ s t. refl;
}

unfoldable pub entrypoint_item : {V : Type 0} → Item (Entrypoint V)
unfolding absorb_entrypoint
entrypoint_item = record {
  id = λ e. e.id;
  favorite = λ e. e.favorite;
  set_favorite = λ b e. record e { favorite = b };
  absorb = absorb_entrypoint;
  id-set_favorite = λ b e. refl;
  id-absorb = λ s e. refl;
}

-- `tunDeviceHolder(exceptId)` of utils/vpn.ts
unfoldable pub tun_device_holder : {V : Type 0} → Text → List (Entrypoint V) → Option (Entrypoint V)
unfolding text_eq
tun_device_holder except [] = none
tun_device_holder except (e ∷ es) =
    let rest = tun_device_holder except es in
    if text_eq e.kind (codes "tun")
      && (text_eq e.status (codes "running") && not (text_eq e.id except))
    then some e
    else rest
