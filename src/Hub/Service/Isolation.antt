-- ===== src/Hub/Service/Isolation.antt =====
-- A request on one workspace leaves the directories of the others alone.
use worldbisect.Prelude.{
  ℕ, String, Bool, true, false, ◌≡◌, refl, sym, ap, subst, ◌∙◌, ◌⊎◌, inl, inr, Option, none, some,
  List, [], ◌∷◌, not, ltb, leb, str_eq, if◌then◌else◌, length, Bool-cases,
}
use worldbisect.Prelude.Exec.{
  Result, ok, err, pure, follow, attempt, ◌>>=◌, Moves, IsPreorder, Moves-bind, Moves-attempt_at,
}
use worldbisect.Prelude.Posts.{Post, Post-bind}
use worldbisect.Prelude.Files.{lookup, insert, lookup-insert}
use worldbisect.Hub.Submission.{
  Host, Submission, PublisherIdentity, valid_submission, valid_publisher,
}
use worldbisect.Hub.Reports.{
  Report, HubError, closed_store, not_found, Desk, list_reports, get_report, delete_report,
  create_report,
}
use worldbisect.Hub.Service.{
  RootEntry, plain, directory, HubStore, Hub, hub_io, is_allowed, check_room, make_directory,
  check_private, enter, in_directory, workspace_dir, on_workspace, list_workspace, get_from,
  delete_from, create_verified, count_directories,
}

module _ (dir : String) where
  -- Every other entry of the data directory is the same.
  pub record Apart (s t : HubStore) : Type 0 where
    pub others : (name : String) → str_eq dir name ≡ false → lookup name t.root ≡ lookup name s.root

  Apart-IsPreorder : IsPreorder Apart
  Apart-IsPreorder = record {
    reflexive = λ s. record { others = λ name other. refl };
    transitive =
        λ s t u p q. record { others = λ name other. q.others name other ∙ p.others name other };
  }

  hub_io-Apart : Moves Apart hub_io
  unfolding hub_io
  hub_io-Apart = record { at = λ s. go s s.faults }
    where
      go : (s : HubStore) (faults : List Bool) → Apart s (hub_io (record s { faults = faults })).1
      go s [] = record { others = λ name other. refl }
      go s (true ∷ rest) = record { others = λ name other. refl }
      go s (false ∷ rest) = record { others = λ name other. refl }

  insert-Apart :
      (s : HubStore) (e : RootEntry) (t : HubStore) → t.root ≡ insert dir e s.root → Apart s t
  insert-Apart s e t p = record {
    others = λ name other. rw (p, lookup-insert dir name e s.root, other) refl;
  }

  make_directory-Apart : Moves Apart (make_directory dir)
  unfolding make_directory
  make_directory-Apart = record { at = λ s. go s (lookup dir s.root) refl }
    where
      go :
          (s : HubStore) (o : Option RootEntry)
          → lookup dir s.root ≡ o
          → Apart s (make_directory dir s).1
      go s none p = rw (p, make_directory) (insert-Apart s (directory true []) _ refl)
      go s (some (plain a n)) p = rw (p, make_directory) record { others = λ name other. refl }
      go s (some (directory a files)) p =
          rw (p, make_directory) record { others = λ name other. refl }

  check_private-Apart : Moves Apart (check_private dir)
  unfolding check_private
  check_private-Apart = record { at = λ s. go s (lookup dir s.root) refl }
    where
      go :
          (s : HubStore) (o : Option RootEntry)
          → lookup dir s.root ≡ o
          → Apart s (check_private dir s).1
      go s none p = rw (p, check_private) record { others = λ name other. refl }
      go s (some (plain a n)) p = rw (p, check_private) record { others = λ name other. refl }
      go s (some (directory true files)) p =
          rw (p, check_private) record { others = λ name other. refl }
      go s (some (directory false files)) p =
          rw (p, check_private) record { others = λ name other. refl }

  in_directory-Apart : {A : Type 0} (m : Desk A) → Moves Apart (in_directory dir m)
  unfolding in_directory
  in_directory-Apart m = record { at = λ s. go s (lookup dir s.root) refl }
    where
      go :
          (s : HubStore) (o : Option RootEntry)
          → lookup dir s.root ≡ o
          → Apart s (in_directory dir m s).1
      go s none p = rw (p, in_directory) record { others = λ name other. refl }
      go s (some (plain a n)) p = rw (p, in_directory) record { others = λ name other. refl }
      go s (some (directory a files)) p = rw (p, in_directory) (insert-Apart s _ _ refl)

  check_room-Apart : Moves Apart (check_room dir)
  unfolding check_room
  check_room-Apart = record { at = λ s. go s (lookup dir s.root) refl }
    where
      go :
          (s : HubStore) (o : Option RootEntry)
          → lookup dir s.root ≡ o
          → Apart s (check_room dir s).1
      go s none p =
          rw (p, check_room)
            ((Moves-bind Apart-IsPreorder hub_io _ hub_io-Apart (λ _.
                Moves-bind Apart-IsPreorder hub_io _ hub_io-Apart (λ _. record {
                  at = λ t. elim (Bool-cases (ltb 116 (length t.root))) [
                    | inl e ↦ rw e record { others = λ name other. refl }
                    | inr e ↦ rw e (elim (Bool-cases (leb 100 (count_directories t.root))) [
                      | inl f ↦ rw f record { others = λ name other. refl }
                      | inr f ↦ rw f record { others = λ name other. refl }
                    ])
                  ];
                }))).at
              s)
      go s (some e) p = rw (p, check_room) record { others = λ name other. refl }

  -- An error, or the name of the directory.
  abbrev IsReached : HubStore → Result HubError String → HubStore → Type 0
  IsReached s (ok a) t = Apart s t × (a ≡ dir)
  IsReached s (err e) t = Apart s t

  then_on :
      {A : Type 0} (s t : HubStore) (m : Hub A) (f : A → Hub String)
      → Apart s t
      → Moves Apart m
      → ((a : A) (u : HubStore) → Apart s u → Post (f a) u (IsReached s))
      → Post (m >>= f) t (IsReached s)
  then_on s t m f p moves good =
      Post-bind m f t (λ r u. Apart s u) (IsReached s)
        (Apart-IsPreorder.transitive s t _ p (moves.at t)) (λ e u q. q) (λ a u q. good a u q)

  enter-IsReached : (s : HubStore) → Post (enter dir) s (IsReached s)
  unfolding enter
  enter-IsReached s =
      let looks : Moves Apart (attempt hub_io (λ _. pure tt) (λ _. check_room dir)) = record {
        at = λ t.
            Moves-attempt_at Apart-IsPreorder hub_io (λ _. pure tt) (λ _. check_room dir) t
              (hub_io-Apart.at t) (λ e _. record { others = λ name other. refl })
              (λ a _. check_room-Apart.at (hub_io t).1);
      } in
      then_on s s _ _ (Apart-IsPreorder.reflexive s) looks λ _ t p.
        then_on s t _ _ p hub_io-Apart λ _ u q. then_on s u _ _ q make_directory-Apart λ _ v r.
          then_on s v _ _ r hub_io-Apart
            λ _ w x. then_on s w _ _ x check_private-Apart λ _ y z. (z, refl)

  within :
      {A : Type 0} (m : Desk A) (s : HubStore) → Apart s ((enter dir >>= λ d. in_directory d m) s).1
  within {A = A} m s =
      Post-bind (enter dir) (λ d. in_directory d m) s (IsReached s) (λ r t. Apart s t)
        (enter-IsReached s) (λ e t p. p)
        (λ d t p.
          subst (λ z. Apart s (in_directory z m t).1) (sym p.1)
            (Apart-IsPreorder.transitive s t _ p.0 ((in_directory-Apart m).at t)))

module _ (digest : String → String) (workspace : String) where
  -- The result and the store after a request: another entry of the data directory is the same; and
  -- the store is open and the workspace is one of its configuration, or there is an error and nothing
  -- has changed.
  abbrev pub Isolated : {A : Type 0} → String → HubStore → Result HubError A × HubStore → Type 0
  Isolated name s after =
      (lookup name after.1.root ≡ lookup name s.root)
      × (((s.is_closed ≡ false) × (is_allowed s.config workspace ≡ true))
          ⊎ ((after.1 ≡ s) × (e : HubError) × (after.0 ≡ err e)))

  enters :
      (s : HubStore)
      → s.is_closed ≡ false
      → is_allowed s.config workspace ≡ true
      → workspace_dir digest workspace s ≡ enter (digest workspace) s
  unfolding workspace_dir
  enters s e f =
      ap
        (λ b.
          if b
          then (err closed_store, s)
          else if not (is_allowed s.config workspace)
          then (err not_found, s)
          else enter (digest workspace) s)
        e
      ∙ ap (λ b. if not b then (err not_found, s) else enter (digest workspace) s) f

  on_workspace-Isolated :
      {A : Type 0} (m : Desk A) (name : String) (s : HubStore)
      → str_eq (digest workspace) name ≡ false
      → Isolated name s (on_workspace digest workspace m s)
  unfolding on_workspace workspace_dir
  on_workspace-Isolated m name s other = elim (Bool-cases s.is_closed) [
    | inl e ↦ rw (e) (refl, inr (refl, _, refl))
    | inr e ↦ elim (Bool-cases (is_allowed s.config workspace)) [
      | inl f ↦ (
        ap (λ r. lookup name (follow r.0 (λ d. in_directory d m) r.1).1.root) (enters s e f)
            ∙ (within (digest workspace) m s).others name other,
        inl (e, f),
      )
      | inr f ↦ rw (e, f) (refl, inr (refl, _, refl))
    ]
  ]

  module _ (host : Host) (encoded : Report → ℕ) (retention : ℕ) where
    -- List, Get, Delete and CreateVerified on a workspace leave the entry of any other name in the
    -- data directory as it is, whatever call of the system fails; and where the store is closed, or
    -- no key or membership of the configuration names the workspace, they return an error and
    -- change nothing.
    pub create_verified-Isolated :
        (id random temporary : String) (submission : Submission)
        (publisher : Option PublisherIdentity) (name : String) (s : HubStore)
        → str_eq (digest workspace) name ≡ false
        → Isolated name s (list_workspace digest host encoded retention workspace s)
          × Isolated name s (get_from digest host encoded retention workspace id s)
          × Isolated name s (delete_from digest host encoded retention workspace id s)
          × Isolated name s (
              create_verified digest host encoded retention workspace random temporary submission
                publisher s)
    unfolding list_workspace get_from delete_from create_verified
    create_verified-Isolated id random temporary submission publisher name s other = (
      on_workspace-Isolated (list_reports host encoded retention) name s other,
      on_workspace-Isolated (get_report host encoded retention id) name s other,
      on_workspace-Isolated (delete_report host encoded retention id) name s other,
      elim (Bool-cases (valid_submission host submission)) [
        | inr e ↦ rw e (refl, inr (refl, _, refl))
        | inl e ↦ elim (Bool-cases (valid_publisher host publisher submission)) [
          | inr f ↦ rw (e, f) (refl, inr (refl, _, refl))
          | inl f ↦
              rw (e, f)
                (on_workspace-Isolated
                  (create_report host encoded retention s.config.max_reports_per_workspace random
                    temporary submission publisher)
                  name s other)
        ]
      ],
    )
