-- ===== src/Agent/Vxlan.antt =====
-- agent/src/overlay/vxlan.rs, the Linux build: the VXLAN interface.
use quiltc.Prelude.{ℕ, String, Bool, Option, ok, is_some, if◌then◌else◌}
use quiltc.Agent.Host.{Host, Act, give, context, given, ◌>>=◌, ◌>>◌}

abbrev pub vxlan_interface : String
vxlan_interface = "vxlan100"

abbrev pub vxlan_vni : ℕ
vxlan_vni = 100

abbrev pub bridge_interface : String
bridge_interface = "quilt0"

module _ (Env : Type 0) (h : Host Env) where
  -- The index of a link, if there is one
  abbrev pub find_link : String → Act Env (Option ℕ)
  find_link name e = give (h.link_index name e) e

  unfoldable pub interface_exists : String → Act Env Bool
  interface_exists name = find_link name >>= λ o. give (ok (is_some o))

  unfoldable pub create_vxlan_interface : Act Env Unit
  create_vxlan_interface =
      context "Failed to create VXLAN interface" (h.add_vxlan vxlan_interface vxlan_vni)

  unfoldable pub set_link_up : String → Act Env Unit
  set_link_up name = do
    o ← find_link name
    index ← give (given "Interface not found" o)
    context "Failed to set link up" (h.set_up index)

  unfoldable pub attach_to_bridge : Act Env Unit
  attach_to_bridge = do
    b ← find_link bridge_interface
    bridge ← give (given "Bridge not found" b)
    v ← find_link vxlan_interface
    vxlan ← give (given "VXLAN interface not found" v)
    context "Failed to attach to bridge" (h.set_master vxlan bridge)

  unfoldable pub setup_vxlan : Act Env Unit
  setup_vxlan = do
    exists ← interface_exists vxlan_interface
    if exists then give (ok tt) else (do
      create_vxlan_interface
      set_link_up vxlan_interface
      bridged ← interface_exists bridge_interface
      if bridged then attach_to_bridge else give (ok tt))
