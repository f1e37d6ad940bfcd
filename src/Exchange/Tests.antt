-- ===== src/Exchange/Tests.antt =====
-- A run of the model of send_and_recv.
use cs550_pa.Prelude.{◌≡◌, refl, arith, none, [], ◌∷◌, ◌++◌, map, replicate, inl}
use cs550_pa.Comms.{done}
use cs550_pa.Comms.Send.{send_msg, preamble}
use cs550_pa.Comms.Recv.{received}
use cs550_pa.Comms.Transmit.{padded, sendupdt_msg-padded}
use cs550_pa.Comms.Reassemble.{bytes_of}
use cs550_pa.Comms.Tests.{
  takes_all, grants, no_files, hello, hello_first, hello_rest, hello_first-length, hello-Cuts,
}
use cs550_pa.Exchange.{send_and_recv}
use cs550_pa.Exchange.Reply.{Replies, send_and_recv-reply}

-- The request and the reply are the same message here.
hello-sends : send_msg takes_all none 4 hello ≡ done (preamble hello ++ padded 1012 hello.buf)
unfolding send_msg
hello-sends =
    sendupdt_msg-padded takes_all 4 hello (record { sized = refl }) refl (inl (omega arith))
      (omega arith)

hello-Replies : Replies grants takes_all 2 hello (replicate 3 7) hello_first (hello_rest ∷ [])
hello-Replies = record {
  sized = record { sized = refl };
  int = omega arith;
  update = refl;
  bounds = inl (omega arith);
  whole_packet = refl;
  alloc = record { alloc = refl; block = refl };
  cuts = hello-Cuts;
  room = inl (omega (arith, hello_first-length));
  enough = omega arith;
}

send_and_recv-reply_example :
    (send_msg takes_all none 4 hello ≡ done (hello_first ++ bytes_of (hello_rest ∷ [])))
    × (send_and_recv takes_all none 4 grants no_files 2
          (received hello_first ∷ map received (hello_rest ∷ []))
          hello
        ≡ done hello)
send_and_recv-reply_example =
    send_and_recv-reply takes_all takes_all none 4 4 2 grants no_files hello hello
      (preamble hello ++ padded 1012 hello.buf) (replicate 3 7) hello_first (hello_rest ∷ [])
      hello-sends hello-Replies (omega arith)
