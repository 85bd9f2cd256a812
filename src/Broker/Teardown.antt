-- ===== src/Broker/Teardown.antt =====
-- `close` of internal/localremote/docker.go takes down what `start` has put up, on every path.
use wol.Prelude.{
  Bool, Bool-cases, List, Outcome, [], ap, append_assoc, err, false, inl, inr, length, ok, refl,
  reverse, some, true, ℤ, ◌++◌, ◌∙◌, ◌∷◌, ◌≡◌,
}
use wol.Broker.Commands.{
  DockerCommand, create_network, published_port, remove_container, remove_network, run_guacamole,
  run_guacd,
}
use wol.Broker.Docker.{
  DockerError, Runtime, Shell, Task, carry, cleanup_orphans, close, find_port, make_guacamole,
  make_guacd, make_network, mark, must, parse_published_loopback, remove_if, run_docker, start,
  ◌>>=◌, ◌>>◌,
}
use wol.Broker.Sidecars.{
  Quiet, cleanup_orphans-Quiet, commands, due, must-Quiet, removal_of, standing, to_removals, undo,
}
use wol.Presence.Probe.{result}
use wol.Text.{Text}

-- What a runtime has started, and that its shell shows the same.
record Stage (a b c : Bool) (d : Runtime) (sh : Shell) : Type 0 where
  known : undo sh.ran ≡ standing d
  network : d.started_network ≡ a
  guacd : d.started_guacd ≡ b
  guacamole : d.started_guacamole ≡ c

Reaches : {A : Type 0} → Bool → Bool → Bool → Outcome DockerError A × Runtime × Shell → Type 0
Reaches a b c (err e, d, sh) = undo sh.ran ≡ standing d
Reaches a b c (ok x, d, sh) = Stage a b c d sh

carry-Reaches :
    {A B : Type 0} (a b c a' b' c' : Bool) (f : A → Task B)
    (out : Outcome DockerError A × Runtime × Shell)
    → Reaches a b c out
    → ((x : A) (d : Runtime) (sh : Shell) → Stage a b c d sh → Reaches a' b' c' (f x d sh))
    → Reaches a' b' c' (carry f out)
unfolding Reaches
carry-Reaches a b c a' b' c' f (err e, d, sh) h next = h
carry-Reaches a b c a' b' c' f (ok x, d, sh) h next = next x d sh h

Quiet-Reaches :
    {A : Type 0} (a b c : Bool) (d : Runtime) (sh : Shell)
    (out : Outcome DockerError A × Runtime × Shell)
    → Stage a b c d sh
    → Quiet d sh out
    → Reaches a b c out
unfolding Quiet Reaches
Quiet-Reaches a b c d sh (err e, d', sh') s (still, quiet) = rw still (quiet ∙ s.known)
Quiet-Reaches a b c d sh (ok x, d', sh') s (still, quiet) = rw still (record {
  known = quiet ∙ s.known;
  network = s.network;
  guacd = s.guacd;
  guacamole = s.guacamole;
})

-- A command that makes something, and the mark behind it.
made-Reaches :
    (a b c a' b' c' : Bool) (command removal : DockerCommand) (f : Runtime → Runtime) (d : Runtime)
    (sh : Shell)
    → Stage a b c d sh
    → removal_of command ≡ some removal
    → standing (f d) ≡ removal ∷ standing d
    → ((f d).started_network ≡ a') × ((f d).started_guacd ≡ b') × ((f d).started_guacamole ≡ c')
    → Reaches a' b' c' ((must command >>= (λ _. mark f)) d sh)
unfolding must run_docker mark undo to_removals Reaches
made-Reaches a b c a' b' c' command removal f d sh s undone more (e1, e2, e3) =
    elim (Bool-cases (sh.answers (length sh.ran)).success) [
      | inl y ↦ rw y (record {
        known = rw (undone, more) (ap (λ l. removal ∷ l) s.known);
        network = e1;
        guacd = e2;
        guacamole = e3;
      })
      | inr n ↦ rw n (rw undone s.known)
    ]

make_network-Reaches :
    (d : Runtime) (sh : Shell)
    → Stage false false false d sh
    → Reaches true false false (make_network d sh)
unfolding make_network removal_of standing due
make_network-Reaches d sh s =
    made-Reaches false false false true false false (create_network d.network d.owner)
      (remove_network d.network) _ d sh s refl (rw (s.network, s.guacd, s.guacamole) refl)
      (refl, s.guacd, s.guacamole)

make_guacd-Reaches :
    (d : Runtime) (sh : Shell)
    → Stage true false false d sh
    → Reaches true true false (make_guacd d sh)
unfolding make_guacd removal_of standing due
make_guacd-Reaches d sh s =
    made-Reaches true false false true true false (run_guacd d.guacd d.network d.owner)
      (remove_container d.guacd) _ d sh s refl (rw (s.network, s.guacd, s.guacamole) refl)
      (s.network, refl, s.guacamole)

make_guacamole-Reaches :
    (d : Runtime) (sh : Shell)
    → Stage true true false d sh
    → Reaches true true true (make_guacamole d sh)
unfolding make_guacamole removal_of standing due
make_guacamole-Reaches d sh s =
    made-Reaches true true false true true true
      (run_guacamole d.guacamole d.network d.guacd d.owner d.secret) (remove_container d.guacamole)
      _ d sh s refl (rw (s.network, s.guacd, s.guacamole) refl) (s.network, s.guacd, refl)

ends :
    {A : Type 0} (r : Outcome DockerError A) (d : Runtime) (sh : Shell)
    → Stage true true true d sh
    → Reaches true true true (r, d, sh)
unfolding Reaches
ends (err e) d sh h = h.known
ends (ok a) d sh h = h

parsed :
    (out : Outcome DockerError Text × Runtime × Shell)
    → Reaches true true true out
    → Reaches true true true (carry (λ output d sh. (parse_published_loopback output, d, sh)) out)
unfolding Reaches
parsed (err e, d, sh) h = h
parsed (ok output, d, sh) h = ends (parse_published_loopback output) d sh h

find_port-Reaches :
    (d : Runtime) (sh : Shell) → Stage true true true d sh → Reaches true true true (find_port d sh)
unfolding find_port removal_of Reaches
find_port-Reaches d sh s =
    let asked : Reaches true true true (must (published_port d.guacamole) d sh) =
      Quiet-Reaches true true true d sh (must (published_port d.guacamole) d sh) s
        (must-Quiet (published_port d.guacamole) d sh refl) in
    parsed (must (published_port d.guacamole) d sh) asked

Reaches-known :
    {A : Type 0} (a b c : Bool) (out : Outcome DockerError A × Runtime × Shell)
    → Reaches a b c out
    → undo out.2.ran ≡ standing out.1
unfolding Reaches
Reaches-known a b c (err e, d, sh) h = h
Reaches-known a b c (ok x, d, sh) h = h.known

start-Reaches :
    (alive : ℤ → Bool) (d : Runtime) (sh : Shell)
    → Stage false false false d sh
    → Reaches true true true (start alive d sh)
unfolding start
start-Reaches alive d sh s =
    carry-Reaches false false false true true true
      (λ _. make_network >> (make_guacd >> (make_guacamole >> find_port)))
      (cleanup_orphans alive d sh)
      (Quiet-Reaches false false false d sh (cleanup_orphans alive d sh) s
        (cleanup_orphans-Quiet alive d sh))
      (λ _ d1 sh1 s1.
        carry-Reaches true false false true true true
          (λ _. make_guacd >> (make_guacamole >> find_port)) (make_network d1 sh1)
          (make_network-Reaches d1 sh1 s1)
          (λ _ d2 sh2 s2.
            carry-Reaches true true false true true true (λ _. make_guacamole >> find_port)
              (make_guacd d2 sh2) (make_guacd-Reaches d2 sh2 s2)
              (λ _ d3 sh3 s3.
                carry-Reaches true true true true true true (λ _. find_port) (make_guacamole d3 sh3)
                  (make_guacamole-Reaches d3 sh3 s3) (λ _ d4 sh4 s4. find_port-Reaches d4 sh4 s4))))

-- `remove_if` runs the removal that is due.
remove_if-ran :
    (test : Bool) (command : DockerCommand) (out : List DockerError × Shell)
    → commands (remove_if test command out).1.ran ≡ due test command ++ commands out.1.ran
unfolding remove_if run_docker due
remove_if-ran true command (errors, sh) = refl
remove_if-ran false command (errors, sh) = refl

due-reverse :
    (x y z : Bool) (a b c : DockerCommand) (log : List DockerCommand)
    → due z c ++ (due y b ++ (due x a ++ log)) ≡ reverse (due x a ++ (due y b ++ due z c)) ++ log
unfolding due
due-reverse true true true a b c log = refl
due-reverse true true false a b c log = refl
due-reverse true false true a b c log = refl
due-reverse true false false a b c log = refl
due-reverse false true true a b c log = refl
due-reverse false true false a b c log = refl
due-reverse false false true a b c log = refl
due-reverse false false false a b c log = refl

pub close-ran :
    (d : Runtime) (sh : Shell)
    → commands (close d sh).1.ran ≡ reverse (standing d) ++ commands sh.ran
unfolding close standing
close-ran d sh =
    rw (remove_if-ran, remove_if-ran, remove_if-ran)
      (due-reverse d.started_guacamole d.started_guacd d.started_network
        (remove_container d.guacamole) (remove_container d.guacd) (remove_network d.network)
        (commands sh.ran))

nothing_made :
    (d : Runtime) (sh : Shell)
    → sh.ran ≡ []
    → (d.started_network ≡ false) × (d.started_guacd ≡ false) × (d.started_guacamole ≡ false)
    → undo sh.ran ≡ standing d
unfolding undo standing due
nothing_made d sh fresh (n, g, q) = rw (fresh, n, g, q) refl

pub start-known :
    (alive : ℤ → Bool) (d : Runtime) (sh : Shell)
    → sh.ran ≡ []
    → (d.started_network ≡ false) × (d.started_guacd ≡ false) × (d.started_guacamole ≡ false)
    → undo (start alive d sh).2.ran ≡ standing (start alive d sh).1
start-known alive d sh fresh (n, g, q) =
    let stage : Stage false false false d sh = record {
      known = nothing_made d sh fresh (n, g, q);
      network = n;
      guacd = g;
      guacamole = q;
    } in
    Reaches-known true true true (start alive d sh) (start-Reaches alive d sh stage)

-- What `close` adds to the log of its shell.
abbrev pub Added : List DockerCommand → Shell → Shell → Type 0
Added due_now before after =
    (newer : List (DockerCommand × Bool)) × (after.ran ≡ newer ++ before.ran)
    × (commands newer ≡ due_now)

commands-append :
    (xs ys : List (DockerCommand × Bool)) → commands (xs ++ ys) ≡ commands xs ++ commands ys
commands-append [] ys = refl
commands-append (x ∷ xs) ys = ap (λ l. x.0 ∷ l) (commands-append xs ys)

remove_if-Added :
    (test : Bool) (command : DockerCommand) (out : List DockerError × Shell)
    → Added (due test command) out.1 (remove_if test command out).1
unfolding remove_if run_docker due
remove_if-Added true command (errors, sh) =
    ((command, (sh.answers (length sh.ran)).success) ∷ [], refl, refl)
remove_if-Added false command (errors, sh) = ([], refl, refl)

Added-then :
    (xs ys : List DockerCommand) (a b c : Shell)
    → Added xs a b
    → Added ys b c
    → Added (ys ++ xs) a c
Added-then xs ys a b c (n1, r1, c1) (n2, r2, c2) =
    (n2 ++ n1, rw (r2, r1, append_assoc) refl, rw (commands-append n2 n1, c1, c2) refl)

-- the outcome, the runtime and the shell behind `start`
abbrev pub after_start : (ℤ → Bool) → Runtime → Shell → Runtime × Shell
after_start alive d sh = let (result, d', sh') = start alive d sh in (d', sh')

-- Whether `start` succeeds or fails, and wherever it fails: the commands that `close` runs then are
-- the removals of the network and the containers whose creation succeeded, of each of them once,
-- and those that were made last go first. The runtime is new and its shell has run nothing yet.
start-close :
    (alive : ℤ → Bool) (d : Runtime) (sh : Shell)
    → sh.ran ≡ []
    → (d.started_network ≡ false) × (d.started_guacd ≡ false) × (d.started_guacamole ≡ false)
    → commands (close (after_start alive d sh).0 (after_start alive d sh).1).1.ran
      ≡ reverse (undo (after_start alive d sh).1.ran) ++ commands (after_start alive d sh).1.ran
start-close alive d sh fresh flags =
    rw (start-known alive d sh fresh flags) (close-ran (start alive d sh).1 (start alive d sh).2)

due-reversed :
    (x y z : Bool) (a b c : DockerCommand)
    → due z c ++ (due y b ++ due x a) ≡ reverse (due x a ++ (due y b ++ due z c))
unfolding due
due-reversed true true true a b c = refl
due-reversed true true false a b c = refl
due-reversed true false true a b c = refl
due-reversed true false false a b c = refl
due-reversed false true true a b c = refl
due-reversed false true false a b c = refl
due-reversed false false true a b c = refl
due-reversed false false false a b c = refl

-- `close` adds the removals of what stands, and nothing else.
pub close-Added : (d : Runtime) (sh : Shell) → Added (reverse (standing d)) sh (close d sh).1
unfolding close standing
close-Added d sh =
    let first = remove_if d.started_guacamole (remove_container d.guacamole) ([], sh) in
    let second = remove_if d.started_guacd (remove_container d.guacd) first in
    let x = due d.started_guacamole (remove_container d.guacamole) in
    let y = due d.started_guacd (remove_container d.guacd) in
    let z = due d.started_network (remove_network d.network) in
    rw
      (← due-reversed d.started_guacamole d.started_guacd d.started_network
        (remove_container d.guacamole) (remove_container d.guacd) (remove_network d.network))
      (Added-then (y ++ x) z sh second.1 (close d sh).1
        (Added-then x y sh first.1 second.1
          (remove_if-Added d.started_guacamole (remove_container d.guacamole) ([], sh))
          (remove_if-Added d.started_guacd (remove_container d.guacd) first))
        (remove_if-Added d.started_network (remove_network d.network) second))
