-- ===== src/Lib.antt =====
-- An on-demand router at the link layer: the process odr_aa19 of each node finds routes by flooding
-- route requests (RREQ), answers them by route replies (RREP), and carries payloads between a
-- client and a server process, which talk to it through local sockets.
--
-- The parts, and the files that model them:
--
-- CString: strncpy, strncmp, memcpy and C texts on lists of bytes.
-- Structs: the structures and constants of odr.h, rtbl.h and common.h, a field for each member that
--   the modelled code reads or writes.
-- Platform: what the program calls and does not implement (the clock, the name service, sendto, the
--   wait for the server, list_add of list.h), as a record of functions. AddsLast is the law of
--   list_add: the walk of list_for_each_entry_reverse meets a new entry last.
-- Table: rtbl.h, and get_index_from_ip of odr.h. update_rtbl_entry has a function for each type of
--   packet; the branches that the source writes out three to five times are one walk with an offer,
--   which holds the fields in which they differ. Walk, Keys, Keeps and Valid prove the invariant;
--   Routes, Progress and Senders read the routes of a table; Map is the table's specification as a
--   map from nodes to routes, and Revises, Refines and Others are about it.
-- Node: the globals and the lasting locals of odr_aa19.c as one record. Every message handed to
--   sendto is kept in `sent`, newest first.
-- Link: broadcast_ll_msg, send_ll_msg and send_payload of odr_aa19.c. Frames is their specification
--   by the list of frames; Sent is a rule for what holds of all that is sent.
-- Odr: process_pack of odr_aa19.c, with a file for each of its cases (Rreq, Rrep, Data) and what
--   they share (Common). The result `none` stands for an access of latest_rreq out of its bounds.
--   Frame, Cases, Kept, Locals, Emits and Spread are rules for its branches, its state and its
--   messages; Valid, Tables, Safe, Total, Faults, Flood, Sends, Again, Answers, Paths, Runs,
--   Return, Payloads and Uncounted are about it.
-- Main: main of odr_aa19.c from the state before the loop on: a round is what select reports, a
--   frame first and then a datagram. handle_request is the branch of a client's request. Induction
--   is a rule for the loop; Request, Asks, Loop, Routes, Refines, Once, Slots, Silent, Floods,
--   Clients, Forced and Ends are about it. Program is the whole of main from the command line on;
--   Discovery puts two nodes together.
-- Network: the processes of all nodes as one step relation. A frame that was sent can reach any
--   node that hears it, at any time, in any order, more than once or never. Steps, Hops,
--   Neighbours, Progress, Ids, Copies, Numbers and Own are about it; Trail follows one RREQ from
--   node to node, and Reply the RREP on its way back; Path and Reaches make both into runs;
--   Discovery puts both between two ends; Carry, Serve and Exchange add the payload, its way, and
--   the answer of the server.
-- Hwaddrs: get_hw_addrs_aa19.c, and fill_if_info_list of odr_aa19.c. Sizing and Interfaces are
--   about it. Heap has the list of get_hw_addrs as linked blocks, its walk, and free_hwa_info;
--   Fetch, Chain, Grown and Built are about that. Aliases puts the list and the sends of Link
--   together.
-- Client: client_aa19.c (getserveraddr, and the two attempts of a round), the messages of common.h
--   and the text of server_aa19.c. Session is the loop of its main. Names, Texts, Talk, Cases,
--   Bounds and Ends are about it.
-- Server: the loop of server_aa19.c, with msg_recv_srv and msg_send_srv of common.h.
-- Print: print_hwaddr of odr.h, print_routing_table of rtbl.h and main of prhwaddrs_aa19.c. Hex and
--   Rows are about it. A row holds what printf says of an entry.
-- Early: the earlier versions odr.c and client.c, which the Makefile does not build. Odr and Client
--   are their functions; Broadcasts and Accepts are about them.
-- Prelude: the names of the library that all files use, lists with native indices, integers, and
--   sums.
-- Tests: a node vm1 with two interfaces, and each theorem at a concrete input.
--
-- How the parts meet: a frame goes to process_pack, which first lets update_rtbl_entry note the
-- sender, then reads routes with get_rtbl_entry and sends through Link. A request of the client
-- goes to handle_request, which looks up the same table, and sends a payload or the RREQ of a new
-- discovery. The RREP that ends the discovery makes process_pack send the payload.
--
-- Bounds: an int is an unbounded integer, so the overflow of a counter is not modelled
-- (Network/Hops is about the size of the hop counts); latest_rreq keeps the conversion to signed
-- char. Three loops are on fuel: the search for a buffer in get_hw_addrs, for which the length of
-- the list and 2 is shown to be enough, and the walks over the linked blocks and free_hwa_info, for
-- which the number of items and 1 is. The other loops are recursions on a list.
--
-- Not modelled: messages of progress, the set-up of sockets, list.h (a copy of another project's),
-- and get_hw_addrs.c and prhwaddrs.c (the same texts as the files with _aa19 in their names),
-- common.c and server.c (stubs). The heap is modelled for the list of interfaces only: elsewhere a
-- buffer is its content, and malloc never fails. A node that fails to send goes on with the result
-- of sendto.
pub mod Prelude
pub mod CString
pub mod Structs
pub mod Platform
pub mod Table
pub mod Node
pub mod Link
pub mod Odr
pub mod Main
pub mod Network
pub mod Hwaddrs
pub mod Client
pub mod Server
pub mod Print
pub mod Early
pub mod Tests
