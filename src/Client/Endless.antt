-- ===== src/Client/Endless.antt =====
-- A response without a content length, which src/http_client_handler_file.cc never ends.
use latypus.Io.{IoResult, of_error, has_error, Reader, ◌>>=◌}
use latypus.Io.Ring.{Ring, buffer_read, bytes_readable}
use latypus.Common.{
  ℕ, ◌≡◌, ◌≢◌, arith, refl, sym, ◌∙◌, true, false, Option, none, some, ◌==◌, ltb, if_elim,
  option_elim,
}
use latypus.Client.State.{ClientEngine, ClientDelegate}
use latypus.Client.Table.{update, remove_events}
use latypus.Client.Handlers.{ClientAnswers, handle_state_server_body}
use latypus.Client.Requests.{requests, Same, update-Same, free_connection-Same}
use latypus.Client.Body.{
  FileBody, BodyAnswer, is_complete, count_body, count_read, read_response_body, body_result,
  body_reader,
}

abbrev Unended : IoResult → Type 0
Unended result = (result.size == 0) ≡ has_error result

abbrev Open : Option (Ring × (FileBody × BodyAnswer)) → Type 0
Open none = Unit
Open (some (r, (h, answer))) = Unended (body_result answer)

module _ (h : FileBody) (errno : ℕ) (reader : Reader) (e : h.content_length ≡ none)
    (set : errno ≢ 0) where
  count_body-Unended : (n : ℕ) → Unended (body_result (count_body h n).1)
  unfolding count_body
  count_body-Unended n = rw e refl

  errno-Unended : Unended (of_error errno)
  errno-Unended = ground arith

  count_read-Open : (r : Ring) (result : IoResult) → Open (count_read h errno r result)
  unfolding count_read
  count_read-Open r result =
      if_elim Open (has_error result) (λ _. errno-Unended)
        λ _. count_body-Unended (bytes_readable r)

  incomplete : is_complete h ≡ false
  incomplete = rw e refl

  read_response_body-Open : (r : Ring) → Open (read_response_body h errno reader r)
  unfolding read_response_body
  read_response_body-Open r =
      if_elim Open (ltb 0 (bytes_readable r)) (λ _. count_body-Unended (bytes_readable r))
        λ _.
          if_elim Open (is_complete h) (λ g. absurd (clash (sym incomplete ∙ g)))
            λ _. by_read (buffer_read r reader)
    where
      clash : false ≡ true → ⊥
      clash g = cc

      by_read :
          (o : Option (Ring × IoResult))
          → Open (o >>= λ (x : Ring × IoResult). count_read h errno x.0 x.1)
      by_read none = tt
      by_read (some (r1, result)) = count_read-Open r1 result

  body_reader-Unended : (r : Ring) → Unended (body_reader h errno reader r).1
  body_reader-Unended r =
      by_answer (read_response_body h errno reader r) (read_response_body-Open r)
    where
      by_answer :
          (o : Option (Ring × (FileBody × BodyAnswer)))
          → Open o
          → Unended
              (elim o as (λ _. Ring × IoResult) [
                | none ↦ (r, of_error 5)
                | some (r1, (h1, answer)) ↦ (r1, body_result answer)
              ]).1
      by_answer none p = refl
      by_answer (some (r1, (h1, answer))) p = p

-- A response without a content length, read by the file handler: no event in the state `server_body`
-- takes the request from the list of the connection, whatever the socket answers, the end of the
-- stream included, and whatever error number other than 0 a failed read leaves in `errno`.
pub server_body_endless :
    (d : ClientDelegate) (a : ClientAnswers) (s : ClientEngine) (i j : ℕ) (h : FileBody) (errno : ℕ)
    (reader : Reader)
    → h.content_length ≡ none
    → errno ≢ 0
    → requests j (
        handle_state_server_body d
          (record a { read_response_body = body_reader h errno reader })
          s
          i)
      ≡ requests j s
unfolding handle_state_server_body
server_body_endless d a s i j h errno reader e set =
    let x = body_reader h errno reader (s.connections_all i).buffer in
    let u : Unended x.1 = body_reader-Unended h errno reader e set (s.connections_all i).buffer in
    let s1 = update s i (λ c. record c { buffer = x.0 }) in
    let e1 : Same j s s1 = update-Same j s i (λ c. record c { buffer = x.0 }) (λ _. refl) in
    option_elim (Same j s) (s.connections_all i).handler _ _ refl λ _.
      if_elim (Same j s) (has_error x.1) (λ _. free_connection-Same j (remove_events d s1 i) i ∙ e1)
        λ g. if_elim (Same j s) (x.1.size == 0) (λ k. absurd (clash (sym k ∙ u ∙ g))) λ _. e1
  where
    clash : true ≡ false → ⊥
    clash g = cc
