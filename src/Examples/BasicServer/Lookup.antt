-- ===== src/Examples/BasicServer/Lookup.antt =====
-- GET /users/:id after POST /users.
use quicframe.Prelude.{
  ◌+◌, ◌-◌, ◌^◌, ◌<◌, ◌≡◌, List, [], ◌∷◌, ◌++◌, none, some, length, ap, sym, ◌∙◌, Bool-cases, inl,
  inr, if◌then◌else◌,
}
use quicframe.Prelude.Text.{Text, codes, decimal, text_eq}
use quicframe.Protocol.Types.{Value, table}
use quicframe.Framework.Context.{msgpack, param}
use quicframe.Framework.Handler.{Run, perform}
use quicframe.Framework.App.{Deps}
use quicframe.Framework.Validation.{Verdict, bind_and_validate}
use quicframe.Examples.BasicServer.{
  User, Server, find_user, reply_user, fields_of, get_user, new_user, add_user, create_after,
  create_user, zero_body, body_name,
}
use quicframe.Examples.BasicServer.Numbering.{NumberedFrom, new_user-id, add_user-find}

-- Users that come later do not hide one that was found.
find_user-later :
    (id : Text) (us later : List User) {u : User}
    → find_user id us ≡ some u
    → find_user id (us ++ later) ≡ some u
unfolding find_user
find_user-later id [] later h = cc
find_user-later id (x ∷ us) later h = elim (Bool-cases (text_eq x.id id)) [
  | inl e ↦ rw e (ap (λ b. if b then some x else find_user id us) (sym e) ∙ h)
  | inr e ↦
      rw e
        (find_user-later id us later (ap (λ b. if b then some x else find_user id us) (sym e) ∙ h))
]

module _ {L : Type 0} (deps : Deps) (check : Value → Verdict) where
  -- The user that POST /users makes gets the next number as its id, with the name of the body, and
  -- is what GET /users/:id replies with for that id from then on, however many users have been
  -- added after it. The users are numbered by their places, the int does not overflow, and the body
  -- decodes and is valid.
  pub create_user-get_user :
      (r s : Run (Server L)) (later : List User)
      → length r.host.users < 2 ^ 63 - 1
      → NumberedFrom 1 r.host.users
      → r.host.next_id ≡ length r.host.users + 1
      → bind_and_validate deps.msgpack check zero_body r.ctx ≡ none
      → s.host.users ≡ (create_user deps check r).0.host.users ++ later
      → param (codes "id") s.ctx ≡ decimal (1 + length r.host.users)
      → get_user deps s
        ≡ perform
            (msgpack deps.msgpack 200 (
              table (
                fields_of (record {
                  id = decimal (1 + length r.host.users);
                  name = body_name deps r.ctx;
                }))))
            s
  unfolding create_user get_user
  create_user-get_user r s later few ids next valid users asked =
      let name = body_name deps r.ctx in
      let id : (new_user name r.host).id ≡ decimal (1 + length r.host.users) =
        new_user-id name r.host few next in
      let grown : s.host.users ≡ (add_user name r.host).users ++ later =
        users ∙ ap (λ o. (create_after deps o r).0.host.users ++ later) valid in
      let found : find_user (decimal (1 + length r.host.users))
            ((add_user name r.host).users ++ later)
          ≡ some (new_user name r.host) =
        find_user-later _ (add_user name r.host).users later (
          ap (λ i. find_user i (add_user name r.host).users) (sym id)
          ∙ add_user-find name r.host (λ _. (ids, next)) few) in
      ap (λ i. reply_user deps (find_user i s.host.users) s) asked
      ∙ (ap (λ us. reply_user deps (find_user (decimal (1 + length r.host.users)) us) s) grown
          ∙ (ap (λ o. reply_user deps o s) found
              ∙ ap (λ i. reply_user deps (some (record { id = i; name = name })) s) id))
