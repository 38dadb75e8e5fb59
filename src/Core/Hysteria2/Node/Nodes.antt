-- ===== src/Core/Hysteria2/Node/Nodes.antt =====
-- Adding a node and deleting it again.
use ccaa.Base.{
  String, string_eq, Option, none, some, ◌⊎◌, ◌≡◌, refl, sym, load, store, delete, load-store,
  load-delete, ok, of_sum, bind-ok, ok-injective, arith,
}
use ccaa.Panel.Node.{NodeInfo}
use ccaa.Core.Hysteria2.Settings.{ServerConfig}
use ccaa.Core.Hysteria2.Config.{NodeOptions}
use ccaa.Core.Hysteria2.Server.{Libraries, HyConfig, get_hy_config}
use ccaa.Core.Hysteria2.Node.{Hysteria2Node, Hysteria2, config_of, add_node, del_node}

module _ {T C U P O I S : Type 0} (libs : Libraries T C U P O I) (zero_config : ServerConfig)
    (read_config : String → Option ServerConfig) (new_server : HyConfig T C P O → String ⊎ S)
    (close_server : S → Option String) where
  -- The node that is added, and the rest as before.
  add_node-nodes :
      (tag : String) (info : NodeInfo) (options : NodeOptions) (h k : Hysteria2 S)
      → add_node libs zero_config read_config new_server tag info options h ≡ ok k
      → (n : Hysteria2Node S) × (k ≡ record h { nodes = store tag n h.nodes })
  unfolding add_node
  add_node-nodes tag info options h k e =
      let (c, p, e1) =
        bind-ok (config_of libs zero_config read_config new_server options.hysteria2_config_path) _
          k e in
      let (config, q, e2) = bind-ok (get_hy_config libs info options c) _ k e1 in
      let (s, r, e3) = bind-ok (of_sum (new_server config)) _ k e2 in (_, sym (ok-injective e3))

  del_node-found :
      (tag : String) (n : Hysteria2Node S) (k : Hysteria2 S)
      → load tag k.nodes ≡ some n
      → close_server n.server ≡ none
      → del_node close_server tag k ≡ ok (record k { nodes = delete tag k.nodes })
  unfolding del_node
  del_node-found tag n k e f = rw (e, del_node) (rw f refl)

  load-delete-store :
      (tag t : String) (n : Hysteria2Node S) (h : Hysteria2 S)
      → load tag h.nodes ≡ none
      → load t (delete tag (store tag n h.nodes)) ≡ load t h.nodes
  load-delete-store tag t n h e = ground (
    arith,
    string_eq.same_iff tag t,
    load-delete tag t (store tag n h.nodes),
    load-store tag t n h.nodes,
  )

  -- When AddNode of a tag that has no node gives no error, and the server it makes closes without
  -- one, DelNode of the tag gives no error either, and leaves every tag's node and the users as
  -- they were before.
  pub del_node-add_node :
      (tag t : String) (info : NodeInfo) (options : NodeOptions) (h k : Hysteria2 S)
      (n : Hysteria2Node S)
      → load tag h.nodes ≡ none
      → add_node libs zero_config read_config new_server tag info options h ≡ ok k
      → load tag k.nodes ≡ some n
      → close_server n.server ≡ none
      → (g : Hysteria2 S) × (del_node close_server tag k ≡ ok g)
        × (load t g.nodes ≡ load t h.nodes)
        × (g.users ≡ h.users)
  del_node-add_node tag t info options h k n free e found closes =
      let (m, same) = add_node-nodes tag info options h k e in
      (
        record k { nodes = delete tag k.nodes },
        del_node-found tag n k found closes,
        rw same (load-delete-store tag t m h free),
        rw same refl,
      )
