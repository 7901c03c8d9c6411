-- ===== src/Main/Notifying.antt =====
-- A notification whose URL cannot be parsed.
use mathlib.Core.Path.{subst}
use restreamer.Prelude.{
  ℕ, suc, ◌≡◌, refl, sym, ap, ◌∙◌, inl, inr, Bool, Bool-cases, true, false, List, [], ◌∷◌, ◌++◌,
  Option, none, some, codes, text_beq, length, Map, nat_eq, if◌then◌else◌,
}
use restreamer.Prelude.Channel.{ok, panic, OnOk}
use restreamer.Configuration.{Configuration, Notification}
use restreamer.Event.Queue.{
  Queue, EventType, limit_hit, limit_miss, heartbeat, Event, notify, handlers_of, new_queue, start,
}
use restreamer.Event.Queue.Registry.{called, called-assign}
use restreamer.Auth.{UserAuthenticator, new_user_authenticator, new_authenticator}
use restreamer.Event.UrlHandler.{UrlHandler, new_url_handler}
use restreamer.Main.{Setup}
use restreamer.Main.Notifications.{
  event_type, Notifications, register, configure_notification, configure_notifications,
  set_up_queue, call_handlers,
}
use restreamer.Main.Registering.{
  called-panics, handlers_of-with_handlers, running-with_handlers, registers, CallsNil,
  CallsNil-registered,
}

-- What a configured notification keeps.
module _ (env : Setup) (config : Configuration) (typ : EventType) (e : Event) where
  register-keeps :
      (typ' : EventType) (o : Option UrlHandler) (n : Notifications)
      → n.queue.running ≡ false
      → ((register typ' o n).queue.running ≡ false)
        × (CallsNil typ e n.queue → CallsNil typ e (register typ' o n).queue)
  register-keeps typ' none n r = (
    ap (λ (q : Queue). q.running) (registers typ' 0 n.queue r)
        ∙ running-with_handlers typ' _ n.queue
        ∙ r,
    λ c.
        subst (CallsNil typ e) (sym (registers typ' 0 n.queue r))
          (CallsNil-registered typ typ' 0 e n.queue c),
  )
  register-keeps typ' (some h) n r =
      let k = suc (length n.handlers) in
      (
        ap (λ (q : Queue). q.running) (registers typ' k n.queue r)
            ∙ running-with_handlers typ' _ n.queue
            ∙ r,
        λ c.
            subst (CallsNil typ e) (sym (registers typ' k n.queue r))
              (CallsNil-registered typ typ' k e n.queue c),
      )

  -- The queue does not run, and calls of nil stay.
  abbrev Keeps : Notifications → Notifications → Type 0
  Keeps n n' = (n'.queue.running ≡ false) × (CallsNil typ e n.queue → CallsNil typ e n'.queue)

  configure_notification-Keeps :
      (note : Notification) (n : Notifications)
      → n.queue.running ≡ false
      → Keeps n (configure_notification env config note n)
  unfolding configure_notification
  configure_notification-Keeps note n r = elim (Bool-cases (text_beq note.type (codes "url"))) [
    | inr other ↦ rw other (r, λ c. c)
    | inl url ↦ rw url (typed (event_type note.event) _)
  ]
    where
      typed :
          (t : Option EventType) (h : Option UrlHandler)
          → Keeps n (elim t as (λ x. Notifications) [ none ↦ n | some typ' ↦ register typ' h n ])
      typed none h = (r, λ c. c)
      typed (some typ') h = register-keeps typ' h n r

  configure_notifications-Keeps :
      (notes : List Notification) (n : Notifications)
      → n.queue.running ≡ false
      → Keeps n (configure_notifications env config notes n)
  unfolding configure_notifications
  configure_notifications-Keeps [] n r = (r, λ c. c)
  configure_notifications-Keeps (note ∷ notes) n r =
      let (r', keeps) = configure_notification-Keeps note n r in
      let (r'', keeps') =
        configure_notifications-Keeps notes (configure_notification env config note n) r' in
      (r'', λ c. keeps' (keeps c))

  -- A notification whose URL cannot be parsed.
  module _ (note : Notification) (is_url : text_beq note.type (codes "url") ≡ true)
      (known : event_type note.event ≡ some typ) (unparsed : env.parse note.url ≡ none) where
    no_handler : (u : Option UserAuthenticator) → new_url_handler env.parse note.url u ≡ none
    unfolding new_url_handler
    no_handler u = rw (new_url_handler, unparsed) refl

    nil_made : (n : Notifications) → configure_notification env config note n ≡ register typ none n
    unfolding configure_notification
    nil_made n =
        let auth =
          new_user_authenticator note.authentication
            (new_authenticator note.authentication config.user_list) in
        let handler : Option UrlHandler = new_url_handler env.parse note.url auth in
        ap
          (λ (b : Bool).
            if b
            then elim (event_type note.event) as (λ x. Notifications) [
              | none ↦ n
              | some t ↦ register t handler n
            ]
            else n)
          is_url
        ∙ ap
            (λ (o : Option EventType). elim o as (λ x. Notifications) [
              | none ↦ n
              | some t ↦ register t handler n
            ])
            known
        ∙ ap (λ (h : Option UrlHandler). register typ h n) (no_handler auth)

    nil_registered :
        (n : Notifications)
        → n.queue.running ≡ false
        → CallsNil typ e (configure_notification env config note n).queue
    nil_registered n r =
        subst (λ (x : Notifications). CallsNil typ e x.queue) (sym (nil_made n))
          (subst (CallsNil typ e) (sym (registers typ 0 n.queue r)) (
            ap (λ (m : Map ℕ Bool). called 0 (notify m e)) (handlers_of-with_handlers typ _ n.queue)
            ∙ called-assign 0 (handlers_of typ n.queue) e))

    nil_stays :
        (before after : List Notification) (n : Notifications)
        → n.queue.running ≡ false
        → CallsNil typ e (configure_notifications env config (before ++ (note ∷ after)) n).queue
    unfolding configure_notifications
    nil_stays [] after n r =
        (configure_notifications-Keeps after (configure_notification env config note n)
            (configure_notification-Keeps note n r).0).1
          (nil_registered n r)
    nil_stays (b ∷ before) after n r =
        nil_stays before after (configure_notification env config b n)
          (configure_notification-Keeps b n r).0

handlers_of-start : (typ : EventType) (q : Queue) → handlers_of typ (start q) ≡ handlers_of typ q
unfolding start
handlers_of-start typ q = same typ q.running
  where
    same :
        (typ : EventType) (b : Bool)
        → handlers_of typ (if b then q else record q { running = true }) ≡ handlers_of typ q
    same limit_hit true = refl
    same limit_hit false = refl
    same limit_miss true = refl
    same limit_miss false = refl
    same heartbeat true = refl
    same heartbeat false = refl

-- What main goes on with.
started_panics :
    (typ : EventType) (e : Event) (n : Notifications) (negative b : Bool)
    → CallsNil typ e n.queue
    → OnOk
        (λ m. call_handlers m.handlers (notify (handlers_of typ m.queue) e) ≡ panic)
        (if negative then panic else if b then panic else ok (record n { queue = start n.queue }))
started_panics typ e n true b c = tt
started_panics typ e n false true c = tt
started_panics typ e n false false c =
    called-panics n.handlers _
      (ap (λ (m : Map ℕ Bool). called 0 (notify m e)) (handlers_of-start typ n.queue) ∙ c)

-- For a configuration with a notification of type url, of a known kind of event, whose URL cannot be
-- parsed: unless the set-up panics, for want of a heartbeat interval or for a negative limit, every event of this kind makes
-- the queue call a method of nil, which panics, whatever else is configured.
pub unparsed_notification_panics :
    (env : Setup) (config : Configuration) (before after : List Notification) (note : Notification)
    (typ : EventType) (e : Event)
    → config.notifications ≡ before ++ (note ∷ after)
    → text_beq note.type (codes "url") ≡ true
    → event_type note.event ≡ some typ
    → env.parse note.url ≡ none
    → OnOk
        (λ n. call_handlers n.handlers (notify (handlers_of typ n.queue) e) ≡ panic)
        (set_up_queue env config)
unfolding set_up_queue new_queue
unparsed_notification_panics env config before after note typ e listed url known unparsed =
    started_panics typ e (configure_notifications env config config.notifications none_yet) _ _ (
      subst
        (λ (notes : List Notification).
          CallsNil typ e (configure_notifications env config notes none_yet).queue)
        (sym listed)
        (nil_stays env config typ e note url known unparsed before after none_yet refl))
  where
    none_yet : Notifications
    none_yet = record {
      queue = new_queue config.full_connections;
      handlers = [];
      enable_heartbeat = false;
    }
