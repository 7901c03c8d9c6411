-- ===== src/Configuration/Normal.antt =====
-- The normal form of a loaded configuration: where the single remote and user are.
use mathlib.Core.Path.{subst}
use restreamer.Prelude.{
  ◌≡◌, ◌<◌, refl, ap, ◌∙◌, false, ◌&&◌, List, [], ◌∷◌, map, Option, none, some, Text, codes, is_set,
  text_beq, if◌then◌else◌, All, arith,
}
use restreamer.Configuration.{
  Authentication, Resource, Notification, Configuration, merge_user, fix_resource, fix_notification,
  normalize, load_configuration, default_configuration,
}

-- No user is left to be merged.
pub record UserMerged (a : Authentication) : Type 0 where
  pub merged : (is_set a.type && is_set a.user) ≡ false

pub record ResourceNormal (r : Resource) : Type 0 where
  pub remote_merged : (text_beq r.type (codes "stream") && is_set r.remote) ≡ false
  pub user_merged : (is_set r.authentication.type && is_set r.authentication.user) ≡ false
  pub mru_set : 0 < r.mru

pub record IsNormal (c : Configuration) : Type 0 where
  pub resources : All ResourceNormal c.resources
  pub notifications : All (λ n. UserMerged n.authentication) c.notifications

-- All the users, and all the remotes, that the stanza names, the single one first.
abbrev pub all_users : Authentication → List Text
all_users a = if is_set a.type && is_set a.user then a.user ∷ a.users else a.users

abbrev pub all_remotes : Resource → List Text
all_remotes r =
    if text_beq r.type (codes "stream") && is_set r.remote then r.remote ∷ r.remotes else r.remotes

merge_user-UserMerged : (a : Authentication) → UserMerged (merge_user a)
unfolding merge_user
merge_user-UserMerged a = ground arith

fix_resource-ResourceNormal : (r : Resource) → ResourceNormal (fix_resource r)
unfolding fix_resource
fix_resource-ResourceNormal r = ground arith

resources-All : (rs : List Resource) → All ResourceNormal (map fix_resource rs)
resources-All [] = tt
resources-All (r ∷ rs) = (fix_resource-ResourceNormal r, resources-All rs)

notifications-All :
    (ns : List Notification) → All (λ n. UserMerged n.authentication) (map fix_notification ns)
unfolding fix_notification
notifications-All [] = tt
notifications-All (n ∷ ns) = (merge_user-UserMerged n.authentication, notifications-All ns)

normalize-IsNormal : (c : Configuration) → IsNormal (normalize c)
unfolding normalize
normalize-IsNormal c = record {
  resources = resources-All c.resources;
  notifications = notifications-All c.notifications;
}

-- Fixing a resource that was fixed changes nothing, and no user or remote is lost or made up.
pub fix_resource_idempotent :
    (r : Resource)
    → (fix_resource (fix_resource r) ≡ fix_resource r)
      × ((fix_resource r).remotes ≡ all_remotes r)
      × ((fix_resource r).authentication.users ≡ all_users r.authentication)
unfolding fix_resource
fix_resource_idempotent r = ground arith

-- The lists of remotes and users are those that the stanzas of another configuration name.
pub record HasLists (d c : Configuration) : Type 0 where
  pub remotes : map (λ r. r.remotes) c.resources ≡ map all_remotes d.resources
  pub users :
      map (λ r. r.authentication.users) c.resources
      ≡ map (λ r. all_users r.authentication) d.resources
  pub notified :
      map (λ n. n.authentication.users) c.notifications
      ≡ map (λ n. all_users n.authentication) d.notifications

fixed_remotes :
    (rs : List Resource) → map (λ r. r.remotes) (map fix_resource rs) ≡ map all_remotes rs
fixed_remotes [] = refl
fixed_remotes (r ∷ rs) =
    ap (λ xs. xs ∷ map (λ (r : Resource). r.remotes) (map fix_resource rs))
      ((fix_resource_idempotent r).1)
    ∙ ap (λ xss. all_remotes r ∷ xss) (fixed_remotes rs)

fixed_users :
    (rs : List Resource)
    → map (λ r. r.authentication.users) (map fix_resource rs)
      ≡ map (λ r. all_users r.authentication) rs
fixed_users [] = refl
fixed_users (r ∷ rs) =
    ap (λ xs. xs ∷ map (λ (r : Resource). r.authentication.users) (map fix_resource rs))
      ((fix_resource_idempotent r).2)
    ∙ ap (λ xss. all_users r.authentication ∷ xss) (fixed_users rs)

merge_user-users : (a : Authentication) → (merge_user a).users ≡ all_users a
unfolding merge_user
merge_user-users a = ground arith

fixed_notified :
    (ns : List Notification)
    → map (λ n. n.authentication.users) (map fix_notification ns)
      ≡ map (λ n. all_users n.authentication) ns
unfolding fix_notification
fixed_notified [] = refl
fixed_notified (n ∷ ns) =
    ap (λ xs. xs ∷ map (λ (n : Notification). n.authentication.users) (map fix_notification ns))
      (merge_user-users n.authentication)
    ∙ ap (λ xss. all_users n.authentication ∷ xss) (fixed_notified ns)

normalize-HasLists : (d : Configuration) → HasLists d (normalize d)
unfolding normalize
normalize-HasLists d = record {
  remotes = fixed_remotes d.resources;
  users = fixed_users d.resources;
  notified = fixed_notified d.notifications;
}

decoded :
    (o : Option Configuration) {c : Configuration}
    → elim o [ none ↦ none | some config ↦ some (normalize config) ] ≡ some c
    → (d : Configuration) × (o ≡ some d) × (normalize d ≡ c)
decoded none e = cc
decoded (some d) e = (d, refl, cc)

-- Whatever the decoder does: a configuration that was loaded is in normal form, with an `Mru` above 0
-- and no single remote or user beside the lists that are meant to hold them; and these lists hold,
-- stanza by stanza and in order, the single one that was decoded, if it is meant to be in the list,
-- and then those that were decoded in the list.
pub load_configuration-IsNormal :
    (decode : Configuration → Text → Option Configuration) (text : Text) {c : Configuration}
    → load_configuration decode text ≡ some c
    → IsNormal c
      × ((d : Configuration) × (decode default_configuration text ≡ some d) × HasLists d c)
unfolding load_configuration
load_configuration-IsNormal decode text e =
    let (d, read, is_c) = decoded (decode default_configuration text) e in
    (
      subst IsNormal is_c (normalize-IsNormal d),
      (d, read, subst (HasLists d) is_c (normalize-HasLists d)),
    )
