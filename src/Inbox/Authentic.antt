-- ===== src/Inbox/Authentic.antt =====
-- handleInbox: the goroutines that it starts, and what warrants them.
use activity_pub_gw.Base.{
  ◌⊎◌, ◌≢◌, ℕ, ◌≡◌, refl, ◌∙◌, sym, ap, subst, Bool, true, [], ◌∷◌, Option, none, some, Bool-cases,
  Option-cases, inl, inr, if◌then◌else◌,
}
use activity_pub_gw.Base.Result.{Result-cases}
use activity_pub_gw.Text.{Str, codes, eqb, until_byte}
use activity_pub_gw.Text.Laws.{eqb_iff}
use activity_pub_gw.Json.{Fields, get, string_or_empty, string_field, string_field_plain}
use activity_pub_gw.Url.{Lib}
use activity_pub_gw.Actor.{user_from_actor_url, bridged_user_id}
use activity_pub_gw.Inbox.Started.{Starts, nothing, one, Starts-if, Starts-map, started_only}
use activity_pub_gw.HttpSig.{verify_request}
use activity_pub_gw.HttpSig.Policy.{IsAuthentic, verify_request_iff}
use activity_pub_gw.Inbound.{translate_inbound}
use activity_pub_gw.Inbound.Asked.{author_of, IsAsked}
use activity_pub_gw.Inbound.Attribution.{translate_inbound-IsBy, translate_inbound-named}
use activity_pub_gw.Inbox.{
  Job, accept_follow, forward, Pool, InboxRequest, handle_inbound_activity, handle_follow,
  handle_activity, handle_verified, handle_body, handle_read, status_bad_request,
  status_method_not_allowed, handle_inbox, status_accepted, status_forbidden,
}

module _ (host : Str) (lib : Lib) (hosted : Str → Bool) where
  -- The user that a Follow in the inbox of a user asks to follow: the one at the end of its object's
  -- URL, or the owner of the inbox when there is none.
  abbrev pub IsFollowed : Fields → Str → Str → Type 0
  IsFollowed raw owner user =
      let named = user_from_actor_url (string_field raw (codes "object")) in
      ((named ≢ []) × (user ≡ named)) ⊎ ((named ≡ []) × (user ≡ owner))

  -- What a job may do for an actor that sent an activity to a user's inbox: answer that activity, a
  -- Follow of a hosted user; or act for the actor on a node, on what the activity names.
  abbrev pub IsFor : Str → Fields → Str → Job → Type 0
  IsFor actor raw owner (accept_follow user remote follow) =
      (follow ≡ raw)
      × (remote ≡ actor)
      × (string_or_empty (get raw (codes "type")) ≡ codes "Follow")
      × IsFollowed raw owner user
      × (hosted user ≡ true)
  IsFor actor raw owner (forward route payload) =
      (author_of payload ≡ bridged_user_id lib actor) × IsAsked host lib raw route payload

  module _ (now : ℕ) (has_node : Bool) (pool : Pool) where
    inbound-Starts :
        (raw : Fields) (owner : Str)
        → Starts
            (IsFor (string_field raw (codes "actor")) raw owner)
            pool
            (handle_inbound_activity host lib now has_node hosted pool raw)
    unfolding handle_inbound_activity
    inbound-Starts raw owner = elim (Option-cases (translate_inbound host lib now raw)) [
      | inl e ↦ rw (e, handle_inbound_activity) (nothing refl)
      | inr ((route, payload), e) ↦
          let (by, asked) = translate_inbound-IsBy host lib now raw route payload e in
          let same =
            string_field_plain raw (codes "actor") (translate_inbound-named host lib now raw e) in
          rw (e, handle_inbound_activity)
            (Starts-if has_node _ _
              (λ _.
                one (forward route payload) (by ∙ ap (bridged_user_id lib) (sym same), asked) refl)
              (λ _. nothing refl))
    ]

    followed :
        (raw : Fields) (owner named : Str)
        → user_from_actor_url (string_field raw (codes "object")) ≡ named
        → IsFollowed raw owner (if eqb named [] then owner else named)
    followed raw owner named e = elim (Bool-cases (eqb named [])) [
      | inl h ↦ rw h (inr (e ∙ (eqb_iff named []).0 h, refl))
      | inr h ↦ rw h (inl (λ empty. cc ((eqb_iff named []).1 (sym e ∙ empty)), sym e))
    ]

    follow-Starts :
        (raw : Fields) (remote user : Str)
        → string_or_empty (get raw (codes "type")) ≡ codes "Follow"
        → Starts
            (IsFor remote raw user)
            pool
            (handle_follow host lib now has_node hosted pool raw remote user)
    unfolding handle_follow
    follow-Starts raw remote user typ =
        let named = user_from_actor_url (string_field raw (codes "object")) in
        let local_user = if eqb named [] then user else named in
        Starts-if (hosted local_user) _ _
          (λ h.
            one (accept_follow local_user remote raw)
              (refl, refl, typ, followed raw user named refl, h) refl)
          (λ _. nothing refl)

    activity-Starts :
        (raw : Fields) (user : Str)
        → Starts
            (IsFor (string_field raw (codes "actor")) raw user)
            pool
            (handle_activity host lib now has_node hosted pool raw user)
    unfolding handle_activity
    activity-Starts raw user =
        let typ = string_or_empty (get raw (codes "type")) in
        let remote = string_field raw (codes "actor") in
        let inbound = handle_inbound_activity host lib now has_node hosted pool raw in
        let other = if eqb typ (codes "Delete") then (status_accepted, pool) else inbound in
        Starts-if (eqb typ (codes "Follow"))
          (handle_follow host lib now has_node hosted pool raw remote user) other
          (λ is. follow-Starts raw remote user ((eqb_iff typ (codes "Follow")).0 is))
          (λ _.
            Starts-if (eqb typ (codes "Delete")) (status_accepted, pool) inbound (λ _. nothing refl)
              (λ _. inbound-Starts raw user))

    -- The decoded body of a request, when it has one, is what its job is for.
    abbrev IsForBody : Option Fields → Str → Str → Job → Type 0
    IsForBody decoded key_id owner job =
        (raw : Fields) × (decoded ≡ some raw) × IsFor (until_byte b'#' key_id) raw owner job

    verified-Starts :
        (decoded : Option Fields) (key_id user : Str)
        → Starts
            (IsForBody decoded key_id user)
            pool
            (handle_verified host lib now has_node hosted pool decoded key_id user)
    unfolding handle_verified
    verified-Starts none key_id user = nothing refl
    verified-Starts (some raw) key_id user =
        let signer = until_byte b'#' key_id in
        let remote = string_field raw (codes "actor") in
        let done = handle_activity host lib now has_node hosted pool raw user in
        Starts-if (eqb signer remote) done (status_forbidden, pool)
          (λ same.
            Starts-map (λ job h. (raw, refl, h))
              (subst (λ who. Starts (IsFor who raw user) pool done)
                (sym ((eqb_iff signer remote).0 same)) (activity-Starts raw user)))
          (λ _. nothing refl)

  -- A job that is legitimate for a request to a user's inbox: the request is a POST, it is authentic
  -- under a key id, its body decodes to an activity, and the job is for that activity and for the
  -- actor that owns the key.
  abbrev pub IsWarranted : {Key : Type 0} → ℕ → InboxRequest Key → Str → Job → Type 0
  IsWarranted now req owner job =
      (body key_id : Str) × (raw : Fields) × (req.method ≡ codes "POST")
      × (req.body ≡ some body)
      × IsAuthentic lib.runes now (req.signed body) key_id
      × (req.unmarshal body ≡ some raw)
      × IsFor (until_byte b'#' key_id) raw owner job

  module _ {Key : Type 0} (now : ℕ) (has_node : Bool) (pool : Pool) (req : InboxRequest Key)
      (user : Str) where
    body-Starts :
        (body : Str)
        → req.method ≡ codes "POST"
        → req.body ≡ some body
        → Starts
            (IsWarranted now req user)
            pool
            (handle_body host lib now has_node hosted pool req body user)
    unfolding handle_body
    body-Starts body post read =
        elim (Result-cases (verify_request lib.runes now (req.signed body))) [
          | inr (e, failed) ↦ rw (failed, handle_body) (nothing refl)
          | inl (key_id, passed) ↦
              rw (passed, handle_body)
                (Starts-map
                  (λ job (raw, decoded, for_signer). (
                    body,
                    key_id,
                    raw,
                    post,
                    read,
                    (verify_request_iff lib.runes now (req.signed body) key_id).0 passed,
                    decoded,
                    for_signer,
                  ))
                  (verified-Starts now has_node pool (req.unmarshal body) key_id user))
        ]

    read-Starts :
        (o : Option Str)
        → req.body ≡ o
        → req.method ≡ codes "POST"
        → Starts (IsWarranted now req user) pool (elim o [
          | none ↦ (status_bad_request, pool)
          | some body ↦ handle_body host lib now has_node hosted pool req body user
        ])
    read-Starts none read post = nothing refl
    read-Starts (some body) read post = body-Starts body post read

    pub inbox-Starts :
        Starts
          (IsWarranted now req user)
          pool
          (handle_inbox host lib now has_node hosted pool req user)
    unfolding handle_inbox
    inbox-Starts =
        Starts-if (eqb req.method (codes "POST"))
          (handle_read host lib now has_node hosted pool req user) (status_method_not_allowed, pool)
          (λ post. read-Starts req.body refl ((eqb_iff req.method (codes "POST")).0 post))
          (λ _. nothing refl)

    -- A goroutine that handling a request starts is warranted: the request is a POST with an
    -- authentic signature whose body decodes to an activity, and the goroutine acts for the actor
    -- whose key signed it: either it answers that activity, which is a Follow, of the hosted user that it
    -- names or whose inbox it came to, or it forwards the activity, about the URL that an activity of
    -- its type names.
    pub handle_inbox-IsWarranted :
        (job : Job)
        → (handle_inbox host lib now has_node hosted pool req user).1.started ≡ job ∷ pool.started
        → IsWarranted now req user job
    handle_inbox-IsWarranted job e = started_only job inbox-Starts e
