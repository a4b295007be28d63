-- ===== src/Server/Routes/Leads.antt =====
-- The URLs below an actor's and the pages that their paths are served as.
use activity_pub_gw.Base.{
  ◌≡◌, All, refl, ap, ◌∙◌, Bool, true, List, [], ◌∷◌, ◌++◌, arith, append_assoc,
}
use activity_pub_gw.Text.{Str, codes, eqb, has_prefix, cut_prefix, trim_prefix, split_byte}
use activity_pub_gw.Text.Laws.{Free, split-Free, split_last}
use activity_pub_gw.Actor.{base_url, actor_id}
use activity_pub_gw.Server.{Served, actor, handle_users, serve_parts}
use activity_pub_gw.Server.Routes.{Page, user_page, page, dispatch, below, is_subtree, served_by}
use activity_pub_gw.Server.Routes.Paths.{IsPart, IsPath, plain_users, below_root}

module _ (host pem : Str) (is_user : Str → Bool) where
  -- A URL of this gateway whose path is served as a page: behind the base URL there is only a path.
  pub record Leads (url : Str) (target : Page) : Type 0 where
    pub path : Str
    pub ours : url ≡ base_url host ++ path
    pub is_path : IsPath path
    pub served : page host pem is_user path ≡ target

users-parts :
    (is_user : Str → Bool) (user sub : Str)
    → Free b'/' user
    → handle_users is_user (codes "/users/" ++ (user ++ (b'/' ∷ sub)))
      ≡ serve_parts is_user (user ∷ split_byte b'/' sub)
unfolding handle_users trim_prefix cut_prefix
users-parts is_user user sub free = ap (serve_parts is_user) (split-Free b'/' user sub free)

module _ (host pem : Str) (is_user : Str → Bool) (user : Str) (free : Free b'/' user)
    (part : IsPart user) (known : is_user user ≡ true) where
  user-IsPath :
      (sub : Str) (parts : List Str)
      → split_byte b'/' sub ≡ parts
      → All IsPart parts
      → IsPath (codes "/users/" ++ (user ++ (b'/' ∷ sub)))
  unfolding split_byte
  user-IsPath sub parts splits plain = record {
    parts = codes "users" ∷ user ∷ parts;
    splits =
        below_root (codes "users") (omega arith) (user ++ (b'/' ∷ sub)) (user ∷ parts)
          (split-Free b'/' user sub free ∙ ap (λ ps. user ∷ ps) splits);
    plain = (plain_users, (part, plain));
  }

  -- A URL below the actor's.
  pub below_actor :
      (url sub : Str) (parts : List Str) (target : Served)
      → split_byte b'/' sub ≡ parts
      → All IsPart parts
      → url ≡ actor_id host user ++ (b'/' ∷ sub)
      → serve_parts is_user (user ∷ split_byte b'/' sub) ≡ target
      → Leads host pem is_user url (user_page target)
  unfolding actor_id page dispatch below is_subtree served_by has_prefix cut_prefix eqb
  below_actor url sub parts target splits plain is_url e = record {
    path = codes "/users/" ++ (user ++ (b'/' ∷ sub));
    ours =
        is_url
        ∙ append_assoc (base_url host) (codes "/users/" ++ user) (b'/' ∷ sub)
        ∙ ap (λ s. base_url host ++ s) (append_assoc (codes "/users/") user (b'/' ∷ sub));
    is_path = user-IsPath sub parts splits plain;
    served = ap user_page (users-parts is_user user sub free ∙ e);
  }

  pub actor_itself : Leads host pem is_user (actor_id host user) (user_page (actor user))
  unfolding actor_id page dispatch below is_subtree served_by has_prefix cut_prefix eqb handle_users
      trim_prefix serve_parts split_byte
  actor_itself = record {
    path = codes "/users/" ++ user;
    ours = refl;
    is_path = record {
      parts = codes "users" ∷ user ∷ [];
      splits = rw (split_last b'/' user free) refl;
      plain = (plain_users, (part, tt));
    };
    served = ap user_page (ap (serve_parts is_user) (split_last b'/' user free) ∙ rw known refl);
  }
