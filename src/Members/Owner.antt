-- ===== src/Members/Owner.antt =====
-- requestUser: the owner of a user, or else the broadcast.
use activity_pub_gw.Base.{sym, subst, ◌≡◌, refl, ◌∙◌, Option, none, some, if◌then◌else◌, is_some}
use activity_pub_gw.Base.Assoc.{lookup, lookup-insert, lookup-erase}
use activity_pub_gw.Text.{Str}
use activity_pub_gw.Text.Laws.{eqb_refl}
use activity_pub_gw.Members.{
  Peer, Client, remember, owner_node, forget_owner, ask_owner, request_user, found_owner,
  cached_owner, owner_reply,
}

-- The owner that a request goes to: the cached one, or else the one that the profile names.
unfoldable pub owner_of : Option Peer → Option Peer → Option Peer
owner_of (some p) found = some p
owner_of none found = found

-- The answer to a request at the owner, if there is one that answers.
unfoldable pub owner_answer : (Peer → Option Str) → Option Peer → Option Str
owner_answer stream none = none
owner_answer stream (some p) = stream p

unfoldable pub or_else : Option Str → Option Str → Option Str
or_else none b = b
or_else (some a) b = some a

found_owner_lem :
    (user : Str) (o : Option Peer) (c : Client)
    → lookup user c.owner ≡ none
    → ((found_owner user o c).0 ≡ o) × (lookup user (found_owner user o c).1.owner ≡ o)
unfolding found_owner
found_owner_lem user none c h = (refl, h)
found_owner_lem user (some p) c h =
    (refl, lookup-insert user user p c.owner ∙ rw (eqb_refl user) refl)

cached_owner_lem :
    (resolve : Str → Option Peer) (user : Str) (o : Option Peer) (c : Client)
    → lookup user c.owner ≡ o
    → ((cached_owner resolve user o c).0 ≡ owner_of o (resolve user))
      × (lookup user (cached_owner resolve user o c).1.owner ≡ owner_of o (resolve user))
unfolding cached_owner owner_of
cached_owner_lem resolve user none c h = found_owner_lem user (resolve user) c h
cached_owner_lem resolve user (some p) c h = (refl, h)

module _ (stream : Peer → Option Str) (broadcast : Option Str) (user : Str) where
  owner_reply_lem :
      (p : Peer) (a : Option Str) (c : Client)
      → lookup user c.owner ≡ some p
      → ((owner_reply broadcast user p a c).0 ≡ or_else a broadcast)
        × (lookup user (owner_reply broadcast user p a c).1.owner
            ≡ (if is_some a then some p else none))
  unfolding owner_reply or_else remember forget_owner
  owner_reply_lem p none c h = (refl, lookup-erase user user c.owner ∙ rw (eqb_refl user) refl)
  owner_reply_lem p (some body) c h = (refl, h)

  ask_owner_lem :
      (o : Option Peer) (c : Client)
      → lookup user c.owner ≡ o
      → ((ask_owner stream broadcast user (o, c)).0 ≡ or_else (owner_answer stream o) broadcast)
        × (lookup user (ask_owner stream broadcast user (o, c)).1.owner
            ≡ (if is_some (owner_answer stream o) then o else none))
  unfolding ask_owner owner_answer or_else
  ask_owner_lem none c h = (refl, h)
  ask_owner_lem (some p) c h = owner_reply_lem p (stream p) c h

  ask_owner_of :
      (r : Option Peer × Client) (o : Option Peer)
      → r.0 ≡ o
      → lookup user r.1.owner ≡ o
      → ((ask_owner stream broadcast user r).0 ≡ or_else (owner_answer stream o) broadcast)
        × (lookup user (ask_owner stream broadcast user r).1.owner
            ≡ (if is_some (owner_answer stream o) then o else none))
  ask_owner_of (q, c) o e h =
      subst
        (λ o.
          ((ask_owner stream broadcast user (q, c)).0 ≡ or_else (owner_answer stream o) broadcast)
          × (lookup user (ask_owner stream broadcast user (q, c)).1.owner
              ≡ (if is_some (owner_answer stream o) then o else none)))
        e (ask_owner_lem q c (h ∙ sym e))

-- A user-scoped request is answered by the user's owner when it is known and answers, and by the
-- broadcast otherwise; afterwards the owner is cached exactly when it has answered.
request_user_lem :
    (stream : Peer → Option Str) (broadcast : Option Str) (resolve : Str → Option Peer) (user : Str)
    (c : Client)
    → let o = owner_of (lookup user c.owner) (resolve user) in
      let r = request_user stream broadcast resolve user c in
      (r.0 ≡ or_else (owner_answer stream o) broadcast)
      × (lookup user r.1.owner ≡ (if is_some (owner_answer stream o) then o else none))
unfolding request_user owner_node
request_user_lem stream broadcast resolve user c =
    let (e, h) = cached_owner_lem resolve user (lookup user c.owner) c refl in
    ask_owner_of stream broadcast user (cached_owner resolve user (lookup user c.owner) c)
      (owner_of (lookup user c.owner) (resolve user)) e h
