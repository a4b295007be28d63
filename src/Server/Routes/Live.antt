-- ===== src/Server/Routes/Live.antt =====
-- The links of the actor documents lead to the pages that they name.
use activity_pub_gw.Base.{
  ◌≡◌, refl, sym, ap, ◌∙◌, Bool, true, [], ◌∷◌, ◌++◌, arith, append_assoc, ◌⊎◌, inl, inr,
  Bool-cases, if◌then◌else◌,
}
use activity_pub_gw.Text.{Str, codes, eqb, has_prefix, cut_prefix, trim_prefix, split_byte}
use activity_pub_gw.Text.Laws.{Free, split_last}
use activity_pub_gw.Actor.{base_url, instance_actor_id, status_url}
use activity_pub_gw.ActorDoc as Documents
use activity_pub_gw.ActorDoc.{
  ActorDocument, WarpnetUser, warpnet_actor_tag, warpnet_badge_path, SubReply, empty_collection,
  build_actor, handle_instance_actor_sub,
}
use activity_pub_gw.Notes.{encode_media_ref}
use activity_pub_gw.Server.{
  actor, inbox, outbox, followers, following, status, serve_parts, serve_sub, serve_statuses,
}
use activity_pub_gw.Server.Routes.{
  Handler, shared_inbox, media, static_files, nodeinfo, handle_node_info_links, instance_actor_sub,
  Page, user_page, actor_page, page_of, page, dispatch, below, is_subtree, served_by,
}
use activity_pub_gw.Server.Routes.Leads.{Leads, below_actor, actor_itself}
use activity_pub_gw.Server.Routes.Paths.{
  IsPart, IsPath, not_empty, plain_inbox, plain_outbox, plain_followers, plain_following,
  plain_statuses, plain_actor, media-IsPath,
}

module _ (host pem : Str) (is_user : Str → Bool) where
  -- The links of a user's document, the URL of a tweet and the URLs of the pictures.
  pub record IsLive (user id : Str) (doc : ActorDocument) : Type 0 where
    pub itself : Leads host pem is_user doc.id (user_page (actor user))
    pub own_inbox : Leads host pem is_user doc.inbox (user_page (inbox user))
    pub own_outbox : Leads host pem is_user doc.outbox (user_page (outbox user))
    pub own_followers : Leads host pem is_user doc.followers (user_page (followers user))
    pub own_following : Leads host pem is_user doc.following (user_page (following user))
    pub shared : Leads host pem is_user doc.shared_inbox (page_of shared_inbox)
    pub tweet : Leads host pem is_user (status_url host user id) (user_page (status user id))
    pub icon : (doc.icon ≡ []) ⊎ Leads host pem is_user doc.icon (page_of media)
    pub image : (doc.image ≡ []) ⊎ Leads host pem is_user doc.image (page_of media)
    pub owner : doc.key_owner ≡ doc.id
    pub badge : Leads host pem is_user (warpnet_actor_tag host).icon_url (page_of static_files)

  -- The links of the gateway's own document and of its NodeInfo: the collections have the ids that the document gives.
  pub record IsLiveInstance (doc : ActorDocument) : Type 0 where
    pub itself : Leads host pem is_user doc.id (page_of Handler.instance_actor)
    pub shared : Leads host pem is_user doc.inbox (page_of shared_inbox)
    pub own_outbox : Leads host pem is_user doc.outbox (actor_page (empty_collection doc.outbox))
    pub own_followers :
        Leads host pem is_user doc.followers (actor_page (empty_collection doc.followers))
    pub own_following :
        Leads host pem is_user doc.following (actor_page (empty_collection doc.following))
    pub node_info : Leads host pem is_user (handle_node_info_links host).1 (page_of nodeinfo)

  at_shared : Leads host pem is_user (base_url host ++ codes "/inbox") (page_of shared_inbox)
  unfolding page dispatch served_by eqb split_byte
  at_shared = record {
    path = codes "/inbox";
    ours = refl;
    is_path = record { parts = codes "inbox" ∷ []; splits = refl; plain = (plain_inbox, tt) };
    served = refl;
  }

  leads :
      {url other : Str} {target : Page}
      → url ≡ other
      → Leads host pem is_user other target
      → Leads host pem is_user url target
  leads e l = record { path = l.path; ours = e ∙ l.ours; is_path = l.is_path; served = l.served }

  at_media :
      (user key : Str)
      → Leads host pem is_user
          (base_url host ++ (codes "/media/" ++ encode_media_ref user key))
          (page_of media)
  unfolding page dispatch below is_subtree served_by has_prefix cut_prefix eqb
  at_media user key = record {
    path = codes "/media/" ++ encode_media_ref user key;
    ours = refl;
    is_path = media-IsPath user key;
    served = refl;
  }

  at_badge : Leads host pem is_user (warpnet_actor_tag host).icon_url (page_of static_files)
  unfolding warpnet_actor_tag page dispatch below is_subtree served_by has_prefix cut_prefix eqb
      split_byte
  at_badge = record {
    path = warpnet_badge_path;
    ours = refl;
    is_path = record {
      parts = codes "static" ∷ codes "warpnet.png" ∷ [];
      splits = refl;
      plain = (
        (λ e. cc, λ e. cc, λ e. cc, omega arith),
        ((λ e. cc, λ e. cc, λ e. cc, omega arith), tt),
      );
    };
    served = refl;
  }

  at_picture :
      (user key url : Str)
      → url ≡ (
          if eqb key []
          then []
          else base_url host ++ (codes "/media/" ++ encode_media_ref user key))
      → (url ≡ []) ⊎ Leads host pem is_user url (page_of media)
  at_picture user key url e = elim (Bool-cases (eqb key [])) [
    | inl absent ↦ inl (e ∙ rw absent refl)
    | inr given ↦ inr (leads (e ∙ rw given refl) (at_media user key))
  ]

  at_collection :
      (sub : Str)
      → IsPath (codes "/actor" ++ sub)
      → (handle_instance_actor_sub host pem (codes "/actor" ++ sub)
          ≡ empty_collection (base_url host ++ (codes "/actor" ++ sub)))
      → dispatch (codes "/actor" ++ sub) ≡ instance_actor_sub
      → Leads host pem is_user
          (instance_actor_id host ++ sub)
          (actor_page (empty_collection (instance_actor_id host ++ sub)))
  unfolding page served_by instance_actor_id
  at_collection sub is_path e d = record {
    path = codes "/actor" ++ sub;
    is_path = is_path;
    ours = append_assoc (base_url host) (codes "/actor") sub;
    served = rw d (
        ap actor_page
          (e ∙ ap empty_collection (sym (append_assoc (base_url host) (codes "/actor") sub))));
  }

  instance-IsLive : IsLiveInstance (Documents.instance_actor host pem)
  unfolding handle_node_info_links Documents.instance_actor page dispatch below is_subtree served_by
      has_prefix cut_prefix eqb handle_instance_actor_sub trim_prefix instance_actor_id split_byte
  instance-IsLive = record {
    itself = record {
      path = codes "/actor";
      ours = refl;
      is_path = record { parts = codes "actor" ∷ []; splits = refl; plain = (plain_actor, tt) };
      served = refl;
    };
    shared = at_shared;
    own_outbox =
        at_collection (codes "/outbox")
          (record {
            parts = codes "actor" ∷ codes "outbox" ∷ [];
            splits = refl;
            plain = (plain_actor, (plain_outbox, tt));
          })
          refl refl;
    own_followers =
        at_collection (codes "/followers")
          (record {
            parts = codes "actor" ∷ codes "followers" ∷ [];
            splits = refl;
            plain = (plain_actor, (plain_followers, tt));
          })
          refl refl;
    own_following =
        at_collection (codes "/following")
          (record {
            parts = codes "actor" ∷ codes "following" ∷ [];
            splits = refl;
            plain = (plain_actor, (plain_following, tt));
          })
          refl refl;
    node_info = record {
      path = codes "/nodeinfo/2.0";
      ours = refl;
      is_path = record {
        parts = codes "nodeinfo" ∷ codes "2.0" ∷ [];
        splits = refl;
        plain = (
          (λ e. cc, λ e. cc, λ e. cc, omega arith),
          ((λ e. cc, λ e. cc, λ e. cc, omega arith), tt),
        );
      };
      served = refl;
    };
  }

  -- A user whom the source knows, with a name that is one plain part of a path (not empty or dots, and
  -- without the characters / ? # and %), has a live document: its id, inboxes, collections and
  -- pictures, and the URL of each tweet with an id that is such a part, are the base URL with a plain
  -- path that is served as the page they name, a picture that is there by the media handler; so is
  -- the icon of its badge, by the static files; and so are the id, the inbox and the collections of the
  -- gateway's own document, and the link of NodeInfo. The id of the badge's tag is not among them.
  pub build_actor-IsLive :
      (wu : WarpnetUser) (id prefix : Str) (escape : Str → Str)
      → Free b'/' wu.preferred_username
      → IsPart wu.preferred_username
      → is_user wu.preferred_username ≡ true
      → Free b'/' id
      → IsPart id
      → IsLive wu.preferred_username id (build_actor host pem prefix escape wu)
        × IsLiveInstance (Documents.instance_actor host pem)
  unfolding build_actor serve_parts serve_sub serve_statuses split_byte eqb status_url
  build_actor-IsLive wu id prefix escape free part known free_id part_id =
      let user = wu.preferred_username in
      let given = not_empty id part_id.0 in
      let at = below_actor host pem is_user user free part known in
      (
        record {
          itself = actor_itself host pem is_user user free part known;
          own_inbox =
              at _ (codes "inbox") (codes "inbox" ∷ []) (inbox user) refl (plain_inbox, tt) refl
                (rw known refl);
          own_outbox =
              at _ (codes "outbox") (codes "outbox" ∷ []) (outbox user) refl (plain_outbox, tt) refl
                (rw known refl);
          own_followers =
              at _ (codes "followers") (codes "followers" ∷ []) (followers user) refl
                (plain_followers, tt) refl (rw known refl);
          own_following =
              at _ (codes "following") (codes "following" ∷ []) (following user) refl
                (plain_following, tt) refl (rw known refl);
          shared = at_shared;
          tweet =
              at _ (codes "statuses/" ++ id) (codes "statuses" ∷ id ∷ []) (status user id)
                (rw (split_last b'/' id free_id) refl) (plain_statuses, (part_id, tt)) refl
                (rw (split_last b'/' id free_id, known, given) refl);
          icon = at_picture user wu.avatar _ refl;
          image = at_picture user wu.background _ refl;
          owner = refl;
          badge = at_badge;
        },
        instance-IsLive,
      )
