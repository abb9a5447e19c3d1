-- ===== src/Events/Gateway/Rooms.antt =====
-- Who is in the room of a project.
use music_video_generator.Prelude.{
  ℕ, Bool, true, false, not, ◌&&◌, Option, none, some, List, [], ◌∷◌, ◌≡◌, refl, sym, subst, ◌∙◌,
  arith, Text, text_eq, text_eq-eq, lower, any, every, keep, find, Bool-cases, inl, inr,
}
use music_video_generator.Env.{Environment}
use music_video_generator.Outcome.{Outcome-cases}
use music_video_generator.Auth.Settings.{is_uuid}
use music_video_generator.Auth.Tokens.{Jwt, Handshake, authenticate_socket}
use music_video_generator.Events.Gateway.{
  Client, Hub, ProjectRow, user_context, uuid_only, room_of, is_client, update_client, in_room,
  enter, depart, owns_project, join_as, handle_connection, handle_join_project, user_context,
}

module _ (projects : List ProjectRow) where
  -- The client's user owns a project with that room.
  abbrev room_owned : Option Text → Text → Bool
  unfolding text_eq lower
  room_owned none room = false
  room_owned (some user) room =
      any (λ p. text_eq (room_of p.id) (lower room) && text_eq p.user_id (lower user)) projects

  -- Every room of the client is that of a project of its user.
  unfoldable pub is_entitled : Client → Bool
  unfolding room_owned
  is_entitled c = every (room_owned c.user_id) c.rooms

  -- The user of the client owns the project.
  unfoldable pub user_owns : Text → Option Text → Bool
  unfolding owns_project
  user_owns project none = false
  user_owns project (some user) = owns_project projects project user

  abbrev pub client_owns : Text → Client → Bool
  unfolding user_owns
  client_owns project c = user_owns project c.user_id

module _ {A : Type 0} where
  pub every-keep : (p q : A → Bool) (xs : List A) → every p xs ≡ true → every p (keep q xs) ≡ true
  every-keep p q [] h = refl
  every-keep p q (x ∷ xs) h = ground (arith, every-keep p q xs)

  pub every-keep_implied :
      (p q r : A → Bool)
      → ((x : A) → p x ≡ true → q x ≡ true → r x ≡ true)
      → (xs : List A) → every p xs ≡ true
      → every r (keep q xs) ≡ true
  every-keep_implied p q r k [] h = refl
  every-keep_implied p q r k (x ∷ xs) h = ground (arith, k x, every-keep_implied p q r k xs)

  every_member :
      (p q : A → Bool) (xs : List A)
      → every p xs ≡ true
      → any q xs ≡ true
      → (x : A) × (p x ≡ true) × (q x ≡ true)
  every_member p q [] h k = absurd (let dead : false ≡ true = k in cc)
  every_member p q (x ∷ xs) h k = elim (Bool-cases (q x)) [
    | inl found ↦ (x, ground arith, found)
    | inr other ↦ every_member p q xs (ground arith) (rw (other) at k)
  ]

pub every-update_client :
    (p : Client → Bool) (id : ℕ) (f : Client → Client) (cs : List Client)
    → every p cs ≡ true
    → ((c : Client) → find (is_client id) cs ≡ some c → p c ≡ true → p (f c) ≡ true)
    → every p (update_client id f cs) ≡ true
every-update_client p id f [] h k = refl
every-update_client p id f (c ∷ cs) h k = elim (Bool-cases (is_client id c)) [
  | inl found ↦
      let first : p c ≡ true = ground arith in
      let rest : every p cs ≡ true = ground arith in rw (found, k c (rw (found) refl) first) rest
  | inr other ↦
      let first : p c ≡ true = ground arith in
      rw (other, first) (every-update_client p id f cs (ground arith) (λ d e. k d (rw (other) e)))
]

module _ (projects : List ProjectRow) where
  room_owned_user :
      (project : Text) (o : Option Text)
      → room_owned projects o (room_of project) ≡ true
      → user_owns projects project o ≡ true
  unfolding room_owned user_owns owns_project text_eq lower
  room_owned_user project none h = h
  room_owned_user project (some user) h = h

  -- A client in the room of a project, whose rooms are all those of its user's projects, owns it.
  pub entitled_owns :
      (project : Text) (c : Client)
      → is_entitled projects c ≡ true
      → in_room (room_of project) c ≡ true
      → client_owns projects project c ≡ true
  unfolding is_entitled in_room client_owns owns_project room_owned text_eq lower
  entitled_owns project c h k =
      let (room, owned, same) =
        every_member (room_owned projects c.user_id) (text_eq (room_of project)) c.rooms h k in
      let named : room_of project ≡ room = text_eq-eq (room_of project) room same in
      room_owned_user project c.user_id
        (subst (λ r. room_owned projects c.user_id r ≡ true) (sym named) owned)

  uuid_only_is : (o : Option Text) (user : Text) → uuid_only o ≡ some user → o ≡ some user
  unfolding uuid_only
  uuid_only_is none user h = h
  uuid_only_is (some u) user h = elim (Bool-cases (is_uuid u)) [
    | inl valid ↦ rw (uuid_only, valid) at h
    | inr invalid ↦ absurd (let dead : none ≡ some user = rw (uuid_only, invalid) at h in cc)
  ]

  user_context_is_user :
      (o : Option Client) (user : Text)
      → user_context o ≡ some user
      → (c : Client) × (o ≡ some c) × (c.user_id ≡ some user)
  unfolding user_context
  user_context_is_user none user h = absurd (let dead : none ≡ some user = h in cc)
  user_context_is_user (some c) user h = (c, refl, uuid_only_is c.user_id user h)

  enter-is_entitled :
      (project user : Text) (c : Client)
      → c.user_id ≡ some user
      → owns_project projects project user ≡ true
      → is_entitled projects c ≡ true
      → is_entitled projects (enter (room_of project) c) ≡ true
  unfolding enter is_entitled room_owned owns_project text_eq lower
  enter-is_entitled project user c u owns h = elim (Bool-cases (in_room (room_of project) c)) [
    | inl there ↦ rw (enter, there) h
    | inr away ↦
        let owned : room_owned projects c.user_id (room_of project) ≡ true = rw (u) owns in
        rw (enter, away, is_entitled, owned) h
  ]

  pub depart-is_entitled :
      (room : Text) (c : Client)
      → is_entitled projects c ≡ true
      → is_entitled projects (depart room c) ≡ true
  unfolding depart is_entitled
  depart-is_entitled room c h =
      every-keep (room_owned projects c.user_id) (λ r. not (text_eq room r)) c.rooms h

  -- The operations keep the clients entitled.
  pub handle_connection-entitled :
      (jwt : Jwt) (env : Environment) (id : ℕ) (handshake : Handshake) (now : ℕ) (h : Hub)
      → every (is_entitled projects) h.clients ≡ true
      → every (is_entitled projects) (handle_connection jwt env id handshake now h).clients ≡ true
  unfolding handle_connection is_entitled
  handle_connection-entitled jwt env id handshake now h k =
      elim (Outcome-cases (authenticate_socket jwt env handshake now)) [
        | inl (f, e) ↦ rw (handle_connection, e) k
        | inr (u, e) ↦ rw (handle_connection, e) k
      ]

  join_as-entitled :
      (id : ℕ) (project : Text) (o : Option Text) (h : Hub)
      → ((c : Client)
          → find (is_client id) h.clients ≡ some c
          → (user : Text) → o ≡ some user
          → c.user_id ≡ some user)
      → every (is_entitled projects) h.clients ≡ true
      → every (is_entitled projects) (join_as projects id project o h).clients ≡ true
  unfolding join_as
  join_as-entitled id project none h same k = k
  join_as-entitled id project (some user) h same k =
      elim (Bool-cases (owns_project projects project user)) [
        | inl owns ↦
            rw (join_as, owns)
              (every-update_client (is_entitled projects) id (enter (room_of project)) h.clients k
                (λ c found entitled.
                  enter-is_entitled project user c (same c found user refl) owns entitled))
        | inr other ↦ rw (join_as, other) k
      ]

  pub handle_join_project-entitled :
      (id : ℕ) (o : Option Text) (h : Hub)
      → every (is_entitled projects) h.clients ≡ true
      → every (is_entitled projects) (handle_join_project projects id o h).clients ≡ true
  unfolding handle_join_project
  handle_join_project-entitled id none h k = k
  handle_join_project-entitled id (some project) h k = elim (Bool-cases (is_uuid project)) [
    | inl valid ↦
        rw (handle_join_project, valid)
          (join_as-entitled id project (user_context (find (is_client id) h.clients)) h
            (λ c found user u. user_of_found c found user u) k)
    | inr invalid ↦ rw (handle_join_project, invalid) k
  ]
    where
      user_of_found :
          (c : Client)
          → find (is_client id) h.clients ≡ some c
          → (user : Text) → user_context (find (is_client id) h.clients) ≡ some user
          → c.user_id ≡ some user
      user_of_found c found user u =
          let (d, there, named) = user_context_is_user (find (is_client id) h.clients) user u in
          let one : some d ≡ some c = sym there ∙ found in
          let same : d ≡ c = cc in subst (λ x. x.user_id ≡ some user) same named
