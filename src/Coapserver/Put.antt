-- ===== src/Coapserver/Put.antt =====
-- A command that is put on the bus.
use lielas.Base.{
  ℕ, ◌<◌, ◌∙◌, ◌≡◌, ◌≢◌, refl, true, false, Option, none, some, List, [], ◌∷◌, ◌++◌, Bytes, All,
  arith, ltb, ◌==◌, length, done, ◌>>=◌,
}
use lielas.Json.{Token, token_text}
use lielas.Lbus.Queue.{Ptr, Cmd, Node, Bus}
use lielas.Lbus.Queue.Adding.{IsDistinct, add-append}
use lielas.Lbus.Load.{LbusTable, get_new_id, create_cmd, is_empty}
use lielas.Coapserver.{
  Member, address, user, cmd, payload, Request, answered, code_content, member_at, size_of,
  copy_member, put_member, put_members, accept, put_tokens, put_cmd, Piece, list_cmds, hnd_put_lbus,
}

-- A string token that names a member, and its value, which is shorter than the member's array.
pub record Sets (text : Bytes) (m : Member) (k v : Token) : Type 0 where
  pub kind : k.is_string ≡ true
  pub named : member_at text k ≡ some m
  pub short : length (token_text text v) < size_of m

module _ {Time : Type 0} where
  copy_member-short :
      (m : Member) (v : Bytes) (c : Cmd Time)
      → length v < size_of m
      → copy_member m v c ≡ done (false, put_member m v c)
  unfolding copy_member
  copy_member-short m v c short =
      let fits : ltb (size_of m) (length v) ≡ false = ground (arith, short) in
      let other : (length v == size_of m) ≡ false = ground (arith, short) in rw (fits, other) refl

  put_members-plain :
      (text : Bytes) (ts : List Token) (c : Cmd Time)
      → All (λ t. t.is_string ≡ false) ts
      → put_members text ts c ≡ done (false, c)
  unfolding put_members
  put_members-plain text [] c h = refl
  put_members-plain text (t ∷ []) c h = rw h.0 refl
  put_members-plain text (t ∷ v ∷ ts) c h = rw h.0 (put_members-plain text (v ∷ ts) c h.1)

  put_members-Sets :
      (text : Bytes) (m : Member) (k v : Token) (ts : List Token) (c : Cmd Time)
      → Sets text m k v
      → put_members text (k ∷ v ∷ ts) c ≡ put_members text ts (put_member m (token_text text v) c)
  unfolding put_members
  put_members-Sets text m k v ts c s =
      let copied = copy_member-short m (token_text text v) c s.short in
      rw (s.named, s.kind, copied, put_members) refl

  put_members-skip :
      (text : Bytes) (k v : Token) (ts : List Token) (c : Cmd Time)
      → k.is_string ≡ false
      → put_members text (k ∷ v ∷ ts) c ≡ put_members text (v ∷ ts) c
  unfolding put_members
  put_members-skip text k v ts c e = rw (e, put_members) refl

-- A request whose text is an object with the four members, in this order, and whose tokens behind
-- the value of the payload are no strings; address, user and command are not empty.
pub record IsRequest (parse : Bytes → Option (List Token)) (text : Bytes) (a u c p : Bytes)
    : Type 0 where
  pub object : Token
  pub ka : Token
  pub va : Token
  pub ku : Token
  pub vu : Token
  pub kc : Token
  pub vc : Token
  pub kp : Token
  pub vp : Token
  pub more : List Token
  pub parsed : parse text ≡ some (object ∷ ka ∷ va ∷ ku ∷ vu ∷ kc ∷ vc ∷ kp ∷ vp ∷ more)
  pub object_kind : object.is_string ≡ false
  pub sets_a : Sets text address ka va
  pub sets_u : Sets text user ku vu
  pub sets_c : Sets text cmd kc vc
  pub sets_p : Sets text payload kp vp
  pub plain : All (λ t. t.is_string ≡ false) more
  pub is_a : token_text text va ≡ a
  pub is_u : token_text text vu ≡ u
  pub is_c : token_text text vc ≡ c
  pub is_p : token_text text vp ≡ p
  pub some_a : is_empty a ≡ false
  pub some_u : is_empty u ≡ false
  pub some_c : is_empty c ≡ false

module _ (t : LbusTable) {Time : Type 0} (strptime : Bytes → Time)
    (parse : Bytes → Option (List Token)) where
  -- The command that is read.
  abbrev pub read_cmd : Request Time → ℕ → (a u c p : Bytes) → Cmd Time
  read_cmd r id a u c p = record r.fresh {
    id = id;
    tmrecv = r.now;
    address = a;
    user = u;
    cmd = c;
    payload = p;
    handled = false;
    tmnexthandle = none;
  }

  put_members-request :
      (text a u c p : Bytes) (q : IsRequest parse text a u c p) (blank : Cmd Time)
      → put_members text
          (q.object ∷ q.ka ∷ q.va ∷ q.ku ∷ q.vu ∷ q.kc ∷ q.vc ∷ q.kp ∷ q.vp ∷ q.more)
          blank
        ≡ done (false, record blank { address = a; user = u; cmd = c; payload = p })
  unfolding put_member
  put_members-request text a u c p q blank =
      let c₁ = put_member address (token_text text q.va) blank in
      let c₂ = put_member user (token_text text q.vu) c₁ in
      let c₃ = put_member cmd (token_text text q.vc) c₂ in
      let c₄ = put_member payload (token_text text q.vp) c₃ in
      put_members-skip text q.object q.ka (q.va ∷ q.ku ∷ q.vu ∷ q.kc ∷ q.vc ∷ q.kp ∷ q.vp ∷ q.more)
        blank q.object_kind
      ∙ put_members-Sets text address q.ka q.va (q.ku ∷ q.vu ∷ q.kc ∷ q.vc ∷ q.kp ∷ q.vp ∷ q.more)
          blank q.sets_a
      ∙ put_members-Sets text user q.ku q.vu (q.kc ∷ q.vc ∷ q.kp ∷ q.vp ∷ q.more) c₁ q.sets_u
      ∙ put_members-Sets text cmd q.kc q.vc (q.kp ∷ q.vp ∷ q.more) c₂ q.sets_c
      ∙ put_members-Sets text payload q.kp q.vp q.more c₃ q.sets_p
      ∙ put_members-plain text q.more c₄ q.plain
      ∙ rw (q.is_a, q.is_u, q.is_c, q.is_p) refl

  create_cmd-new :
      (r : Request Time) (d : t.Db)
      → r.allocated ≡ true
      → ((get_new_id t d).0 == 0) ≡ false
      → create_cmd t strptime r.allocated 0 r.fresh d ≡ (
        some (record r.fresh {
          id = (get_new_id t d).0;
          handled = false;
          address = [];
          cmd = [];
          payload = [];
          tmnexthandle = none;
        }),
        (get_new_id t d).1,
      )
  unfolding create_cmd
  create_cmd-new r d room made = rw (room, made) refl

  -- A request with the four members in the order of the code, where a new id can be had and the
  -- first container of the bus holds a command: the command gets the new id and the time of the
  -- request, goes behind all others on the bus and is saved; the handler then lists the commands of
  -- this bus and answers with 2.05, unless the listing writes outside its buffer; the containers of
  -- the bus are distinct, the members are shorter than their arrays, address, user and command are
  -- not empty, the tokens behind the value of the payload are no strings, and the allocations
  -- succeed.
  pub put_cmd-adds :
      (r : Request Time) (text a u c p : Bytes) (n : Node) (ns : List Node) (x y : Ptr)
      (s : Bus Time) (d : t.Db)
      → r.text ≡ some text
      → IsRequest parse text a u c p
      → r.allocated ≡ true
      → r.new_cmd ≡ some x
      → r.new_con ≡ some y
      → ((get_new_id t d).0 == 0) ≡ false
      → s.chain ≡ n ∷ ns
      → IsDistinct (n ∷ ns)
      → n.lcmd ≢ none
      → let id : ℕ = (get_new_id t d).0 in
        let added = read_cmd r id a u c p in
        (s' : Bus Time) × (put_cmd t strptime parse r s d
          ≡ done (answered code_content, s', (get_new_id t d).1))
        × (s'.chain ≡ s.chain ++ (record { con = y; lcmd = some x } ∷ []))
        × (s'.cmds x ≡ some added)
        × (s'.saved ≡ s.saved ++ added ∷ [])
        × ((pieces : Cmd Time → List Piece)
            → hnd_put_lbus t strptime parse pieces r s d ≡ (
                list_cmds pieces s' >>= λ (len, s'').
                done (answered code_content, s'', (get_new_id t d).1)))
  unfolding put_cmd accept put_tokens hnd_put_lbus
  put_cmd-adds r text a u c p n ns x y s d there q room cmd_room con_room table chain distinct
        holds =
      let added = read_cmd r (get_new_id t d).0 a u c p in
      let blank = record r.fresh {
        id = (get_new_id t d).0;
        handled = false;
        address = [];
        cmd = [];
        payload = [];
        tmnexthandle = none;
      } in
      let made : create_cmd t strptime r.allocated 0 r.fresh d ≡ (some blank, (get_new_id t d).1) =
        create_cmd-new r d room table in
      let members = put_members-request text a u c p q blank in
      let (s', ran, behind, _, stored, saved) =
        add-append x y n ns added true s chain distinct holds in
      let accepted : accept t strptime parse r
            (record blank { address = a; user = u; cmd = c; payload = p }) s
          ≡ done (answered code_content, s') =
        rw (q.some_c, q.some_a, q.some_u, cmd_room, con_room, ran, accept) refl in
      let put : put_tokens t strptime parse r text
            (q.object ∷ q.ka ∷ q.va ∷ q.ku ∷ q.vu ∷ q.kc ∷ q.vc ∷ q.kp ∷ q.vp ∷ q.more) s
            (some blank) (get_new_id t d).1
          ≡ done (answered code_content, s', (get_new_id t d).1) =
        rw (members, accepted, put_tokens) refl in
      let whole : put_cmd t strptime parse r s d
          ≡ done (answered code_content, s', (get_new_id t d).1) =
        rw (there, q.parsed, made, put_cmd) put in
      (s', whole, behind, stored, saved, λ pieces. rw (whole, hnd_put_lbus) refl)
