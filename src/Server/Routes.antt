-- ===== src/Server/Routes.antt =====
-- server.go: routes, logsHandler: which handler serves a path. The patterns are those of an
-- http.ServeMux: one that ends in a slash serves all below it, and the path without that slash is
-- redirected to it. Paths are clean, as the mux makes them.
pub mod Leads
pub mod Live
pub mod Paths
pub mod Weighed
use activity_pub_gw.Base.{Bool, ◌||◌, ◌++◌, if◌then◌else◌}
use activity_pub_gw.Text.{Str, codes, eqb, has_prefix}
use activity_pub_gw.Actor.{base_url}
use activity_pub_gw.ActorDoc.{SubReply, handle_instance_actor_sub}
use activity_pub_gw.Server.{Served, handle_users}

-- handleNodeInfoLinks: the relation and the target of its link.
unfoldable pub handle_node_info_links : Str → Str × Str
handle_node_info_links host = (
  codes "http://nodeinfo.diaspora.software/ns/schema/2.0",
  base_url host ++ codes "/nodeinfo/2.0",
)

-- The handlers of routes.
pub data Handler : Type 0 where
  webfinger nodeinfo_links nodeinfo users instance_actor instance_actor_sub : Handler
  shared_inbox media static_files logs moved no_handler : Handler

-- The paths without their slash.
is_subtree : Str → Bool
is_subtree p = eqb p (codes "/users") || (eqb p (codes "/media") || eqb p (codes "/static"))

-- The patterns that end in a slash.
below : Str → Handler
unfolding is_subtree
below p =
    if has_prefix p (codes "/users/")
    then users
    else if has_prefix p (codes "/actor/")
    then instance_actor_sub
    else if has_prefix p (codes "/media/")
    then media
    else if has_prefix p (codes "/static/")
    then static_files
    else if is_subtree p
    then moved
    else no_handler

-- routes.
unfoldable pub dispatch : Str → Handler
unfolding below is_subtree
dispatch p =
    if eqb p (codes "/.well-known/webfinger")
    then webfinger
    else if eqb p (codes "/.well-known/nodeinfo")
    then nodeinfo_links
    else if eqb p (codes "/nodeinfo/2.0")
    then nodeinfo
    else if eqb p (codes "/actor")
    then instance_actor
    else if eqb p (codes "/inbox")
    then shared_inbox
    else if eqb p (codes "/logs")
    then logs
    else below p

-- logsHandler.
unfoldable pub dispatch_logs : Str → Handler
dispatch_logs p = if eqb p (codes "/logs") then logs else no_handler

-- What a path is served as, with the choices that handleUsers and handleInstanceActorSub make.
pub data Page : Type 0 where
  user_page : Served → Page
  actor_page : SubReply → Page
  page_of : Handler → Page

served_by : Str → Str → (Str → Bool) → Str → Handler → Page
served_by host pem is_user p users = user_page (handle_users is_user p)
served_by host pem is_user p instance_actor_sub = actor_page (handle_instance_actor_sub host pem p)
served_by host pem is_user p h = page_of h

-- The gateway's answer to a path.
unfoldable pub page : Str → Str → (Str → Bool) → Str → Page
unfolding served_by
page host pem is_user p = served_by host pem is_user p (dispatch p)
